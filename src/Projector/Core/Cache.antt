-- ===== src/Projector/Core/Cache.antt =====
-- Visualize/integration/projector/runtime_cache.py: the snapshot that GET /current-run answers from.
-- The time of the last update, which only people read, is left out.
use smart_data_models.Prelude.{
  ℕ, String, Bool, true, false, ◌||◌, Option, none, some, string_key, ◌==◌, if◌then◌else◌,
}
use smart_data_models.Projector.Tables.{ActiveRun, TextPair, RuntimeState, ProjectorStore}
use smart_data_models.Projector.Store.{get_active_run}

pub record RuntimeSnapshot : Type 0 where
  pub simulation_run_id : Option String
  pub scenario_id : Option String
  pub simulation_time : ℕ
  pub status : String
  pub last_applied_cycle : ℕ
  pub freshness : Option ℕ

pub record RuntimeCache : Type 0 where
  pub snapshot : Option RuntimeSnapshot
  pub is_faulted : Bool
  pub is_recovering : Bool

unfoldable pub empty : RuntimeCache
empty = record { snapshot = none; is_faulted = false; is_recovering = false }

unfoldable pub mark_recovering : RuntimeCache → RuntimeCache
mark_recovering c = record c { is_recovering = true }

unfoldable pub mark_faulted : RuntimeCache → RuntimeCache
mark_faulted c = record c { is_faulted = true }

unfoldable pub clear_fault : RuntimeCache → RuntimeCache
clear_fault c = record c { is_faulted = false; is_recovering = false }

abbrev pub snapshot_of : RuntimeState → RuntimeSnapshot
snapshot_of r = record {
  simulation_run_id = r.simulation_run_id;
  scenario_id = r.scenario_id;
  simulation_time = r.simulation_time;
  status = r.status;
  last_applied_cycle = r.last_applied_cycle;
  freshness = r.freshness;
}

-- Called with the fields of the row that `set_runtime_state` has returned.
unfoldable pub update_after_apply : RuntimeCache → RuntimeState → RuntimeCache
update_after_apply c r = record {
  snapshot = some (snapshot_of r);
  is_faulted = false;
  is_recovering = false;
}

-- `runtime.get("status") or RuntimeStatus.ACTIVE.value`
abbrev pub status_or_active : String → String
status_or_active status = if status == "" then "ACTIVE" else status

unfoldable pub rebuilt : ActiveRun → Option RuntimeState → RuntimeSnapshot
rebuilt active none = record {
  simulation_run_id = some active.simulation_run_id;
  scenario_id = none;
  simulation_time = 0;
  status = "ACTIVE";
  last_applied_cycle = 0;
  freshness = none;
}
rebuilt active (some r) = record (snapshot_of r) {
  simulation_run_id = some active.simulation_run_id;
  status = status_or_active r.status;
}

unfoldable pub rebuild_for : RuntimeCache → Option ActiveRun → Option RuntimeState → RuntimeCache
unfolding rebuilt
rebuild_for c none runtime = record c { snapshot = none; is_recovering = false }
rebuild_for c (some active) runtime = record c {
  snapshot = some (rebuilt active runtime);
  is_recovering = false;
}

unfoldable pub rebuild_from_store : RuntimeCache → ProjectorStore → TextPair → RuntimeCache
unfolding rebuild_for get_active_run
rebuild_from_store c s key = rebuild_for c (get_active_run s key) s.runtime

abbrev pub has_run : RuntimeSnapshot → Bool
has_run snapshot = elim snapshot.simulation_run_id [
  | none ↦ false
  | some run ↦ if run == "" then false else true
]

unfoldable pub answer : Option RuntimeSnapshot → ℕ × Option RuntimeSnapshot
answer none = (204, none)
answer (some snapshot) = if has_run snapshot then (200, some snapshot) else (204, none)

unfoldable pub http_status : RuntimeCache → ℕ × Option RuntimeSnapshot
unfolding answer
http_status c = if c.is_faulted || c.is_recovering then (503, none) else answer c.snapshot
