-- ===== src/Projector/Core/Recovery.antt =====
-- Visualize/integration/projector/core.py: `__init__`, the settings, `recover`, the lag probe and the
-- readiness. A freshness, a number of seconds in the source, is one of milliseconds.
use smart_data_models.Prelude.{
  ℕ, ◌*◌, max, String, Bool, true, false, not, ◌&&◌, ◌||◌, Option, none, some, List, [], ◌∷◌, ◌++◌,
  ltb, leb, if◌then◌else◌, string_key, ◌==◌, nat_key, Dict, TopicPartition, topic_partition_key,
}
use smart_data_models.Projector.Tables.{ActiveRun, ProjectorStore, text_pair_key}
use smart_data_models.Projector.Store.{get_active_run, get_committed_offset, set_committed_offset}
use smart_data_models.Projector.Store.Recovery.{
  rebuild_completed_offsets, reconcile_runtime_state_from_entities,
}
use smart_data_models.Projector.Store.Cleanup
use smart_data_models.Projector.OffsetTracker
use smart_data_models.Projector.OffsetTracker.{passes, load_committed}
use smart_data_models.Projector.Retry
use smart_data_models.Projector.Retry.{has_pending, degraded}
use smart_data_models.Projector.NodeBuffer
use smart_data_models.Projector.Core.Cache
use smart_data_models.Projector.Core.Cache.{rebuild_from_store}
use smart_data_models.Projector.Core.State.{
  ProjectorMode, normal, catch_up, RuntimePhase, ready_idle, phase_active, phase_catch_up,
  phase_degraded, phase_faulted, recovering, WriteMode, Core, Call, pure, gets, update, ◌>>=◌, ◌>>◌,
  for_each, write,
}
use smart_data_models.Projector.Core.Marks.{is_active}

abbrev pub ready_lag_events : ℕ
ready_lag_events = 40

abbrev pub ready_max_partition_lag : ℕ
ready_max_partition_lag = 40

abbrev pub ready_freshness_ms : ℕ
ready_freshness_ms = 2000

abbrev pub catch_up_enter_lag : ℕ
catch_up_enter_lag = 200

abbrev pub catch_up_exit_lag : ℕ
catch_up_exit_lag = 80

abbrev pub catch_up_enter_freshness_ms : ℕ
catch_up_enter_freshness_ms = 5000

-- A target that is empty counts as none.
unfoldable pub target_of : String → Option String
target_of target = if target == "" then none else some target

-- A core with the defaults of the constructor, for a store, a source, a write mode, a target, and the
-- limits of the buffers.
unfoldable pub init :
    ProjectorStore → String → WriteMode → Option String → Dict ℕ ℕ → ℕ → ℕ → ℕ → ℕ → Bool → Core
init s source mode target fences armed_max timeout max_events max_cycles defer = record {
  store = s;
  disk = [];
  source = source;
  write_mode = mode;
  target_simulation_run_id = target;
  fence_offsets = fences;
  armed_buffer_max = armed_max;
  armed_buffer = [];
  partitions_paused = false;
  defer_ready_until_idle = defer;
  runtime_cache = Cache.empty;
  retry_manager = Retry.init;
  runtime_phase = recovering;
  last_lag_events = 0;
  last_max_partition_lag = 0;
  lag_samples = [];
  buffers = NodeBuffer.init timeout max_events max_cycles;
  offsets = OffsetTracker.init;
  mode = normal;
  awaiting_run_timeout_ms = max (timeout * 50) 2000;
  awaiting_run = [];
  is_faulted = false;
  fault_message = none;
  active_run_cache = [];
}

unfoldable pub set_write_mode : WriteMode → Core → Core
set_write_mode mode c = record c { write_mode = mode }

unfoldable pub load_fence_manifest : String → Dict ℕ ℕ → Core → Core
load_fence_manifest target fences c = record c {
  target_simulation_run_id = target_of target;
  fence_offsets = fences;
  active_run_cache = [];
}

-- What the ledger shows to be complete is loaded, and persisted where it is past the commit.
unfoldable pub recover_at : TopicPartition → Option ℕ → Call Unit
recover_at place none v c = pure tt v c
recover_at place (some last) v c =
    let loaded = record c { offsets = load_committed c.offsets place last } in
    if passes (get_committed_offset c.store place) last
    then write (λ v s e. set_committed_offset s place last e) v loaded
    else pure tt v loaded

unfoldable pub recover_partition : TopicPartition → Call Unit
recover_partition place v c =
    recover_at place (rebuild_completed_offsets c.store place (get_committed_offset c.store place))
      v c

unfoldable pub reconcile_tx :
    ProjectorStore → String → Option String → ProjectorStore × Option String
reconcile_tx s run none = (reconcile_runtime_state_from_entities s run, none)
reconcile_tx s run (some e) = (s, some e)

unfoldable pub reconcile_active : Option ActiveRun → Call Unit
reconcile_active none = pure tt
reconcile_active (some run) = write (λ v s e. reconcile_tx s run.simulation_run_id e)

abbrev pub phase_for : Option ActiveRun → RuntimePhase
phase_for none = ready_idle
phase_for (some run) = phase_active

unfoldable pub recover : List TopicPartition → String → Call Unit
recover partitions producer = do
  for_each recover_partition partitions
  run ← gets (λ v c. get_active_run c.store (c.source, producer))
  reconcile_active run
  update (λ v c. record c {
    runtime_cache = rebuild_from_store c.runtime_cache c.store (c.source, producer);
  })
  update (λ v c. record c { runtime_phase = phase_for run })

-- `deque(maxlen=3)`
unfoldable pub sample : List ℕ → ℕ → List ℕ
sample (a ∷ b ∷ d ∷ rest) n = b ∷ d ∷ n ∷ []
sample xs n = xs ++ n ∷ []

abbrev pub is_over : Option ℕ → ℕ → Bool
is_over none limit = false
is_over (some t) limit = ltb limit t

unfoldable pub enters_catch_up : ℕ → Option ℕ → Bool
enters_catch_up lag freshness =
    ltb catch_up_enter_lag lag || is_over freshness catch_up_enter_freshness_ms

unfoldable pub exits_catch_up : ℕ → Option ℕ → Bool
exits_catch_up lag freshness =
    leb lag catch_up_exit_lag && not (is_over freshness ready_freshness_ms)

abbrev pub phase_after_exit : RuntimePhase → RuntimePhase
phase_after_exit phase_catch_up = phase_active
phase_after_exit phase = phase

unfoldable pub switch_mode :
    ProjectorMode → RuntimePhase → ℕ → Option ℕ → ProjectorMode × RuntimePhase
switch_mode normal phase lag freshness =
    if enters_catch_up lag freshness then (catch_up, phase_catch_up) else (normal, phase)
switch_mode catch_up phase lag freshness =
    if exits_catch_up lag freshness then (normal, phase_after_exit phase) else (catch_up, phase)

-- Three samples, each above the one before.
unfoldable pub is_rising : List ℕ → Bool
is_rising (a ∷ b ∷ d ∷ []) = ltb a b && ltb b d
is_rising _ = false

unfoldable pub phase_after : ProjectorMode → RuntimePhase → List ℕ → RuntimePhase
phase_after normal phase samples = phase
phase_after catch_up phase samples = if is_rising samples then phase_degraded else phase

unfoldable pub update_lag_probe : ℕ → ℕ → Option ℕ → Core → Core
update_lag_probe lag max_partition_lag freshness c =
    let samples = sample c.lag_samples lag in
    let (mode, phase) = switch_mode c.mode c.runtime_phase lag freshness in
    record c {
      last_lag_events = lag;
      last_max_partition_lag = max_partition_lag;
      lag_samples = samples;
      mode = mode;
      runtime_phase = phase_after mode phase samples;
    }

unfoldable pub update_lag : ℕ → Core → Core
update_lag lag_ms c = update_lag_probe c.last_lag_events c.last_max_partition_lag (some lag_ms) c

unfoldable pub cleanup : ℕ → ℕ → ℕ → Core → Core
cleanup now state_retention ledger_retention c = record c {
  store = (Cleanup.cleanup c.store now state_retention ledger_retention).0;
}

abbrev pub is_phase_faulted : RuntimePhase → Bool
is_phase_faulted phase_faulted = true
is_phase_faulted _ = false

-- The tests that stand before the store is read.
unfoldable pub blocked : Core → Bool → Bool → Option String
blocked c assigned unresolved_dlq =
    if c.is_faulted
    then some "faulted"
    else if is_phase_faulted c.runtime_phase
    then some "runtime_faulted"
    else if unresolved_dlq
    then some "unresolved_dlq"
    else if has_pending c.retry_manager || degraded c.retry_manager
    then some "retry_pending"
    else if c.buffers.paused || c.partitions_paused
    then some "buffers_paused"
    else if not assigned
    then some "no_assignment"
    else if not (is_active c.write_mode)
    then some "write_mode_not_active"
    else none

unfoldable pub ready_for : Option ActiveRun → ℕ → ℕ → Option ℕ → Bool × String
ready_for none lag max_partition_lag freshness = (true, "idle")
ready_for (some run) lag max_partition_lag freshness =
    if ltb ready_lag_events lag || ltb ready_max_partition_lag max_partition_lag
    then (false, "lag_high")
    else if is_over freshness ready_freshness_ms
    then (false, "freshness_high")
    else (true, "active")

unfoldable pub answer_ready : Option String → Bool × String → Bool × String
answer_ready none verdict = verdict
answer_ready (some reason) verdict = (false, reason)

unfoldable pub readiness_ok : Core → ℕ → ℕ → Option ℕ → Bool → Bool → Bool × String
readiness_ok c lag max_partition_lag freshness assigned unresolved_dlq =
    answer_ready (blocked c assigned unresolved_dlq) (
      ready_for (get_active_run c.store (c.source, "visualize-traci")) lag max_partition_lag
        freshness)
