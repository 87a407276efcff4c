-- ===== src/Control/Registry.antt =====
-- Visualize/control/command_registry.py: `CommandRegistry`. The two readings of the monotonic clock
-- in one `put` are arguments, in microseconds.
pub mod Eviction
use smart_data_models.Prelude.{
  ℕ, ◌-◌, String, Bool, true, false, ◌&&◌, Option, none, some, List, [], ◌∷◌, leb, if◌then◌else◌,
  string_key, Dict, get, put, remove, length, is_some,
}
use smart_data_models.Control.Command.{
  ControlCommandStatus, LifecycleStatus, received, validated, queued, applying, completed, failed,
  expired, unknown_outcome,
}

abbrev pub is_terminal : LifecycleStatus → Bool
is_terminal completed = true
is_terminal failed = true
is_terminal expired = true
is_terminal unknown_outcome = true
is_terminal received = false
is_terminal validated = false
is_terminal queued = false
is_terminal applying = false

pub record RegistryRecord : Type 0 where
  pub status : ControlCommandStatus
  pub terminal_at : Option ℕ

pub record CommandRegistry : Type 0 where
  pub records : Dict String RegistryRecord
  pub max_records : ℕ
  pub terminal_retention_us : ℕ

abbrev pub status_of : Option RegistryRecord → Option ControlCommandStatus
status_of none = none
status_of (some rec) = some rec.status

unfoldable pub lookup : CommandRegistry → String → Option ControlCommandStatus
unfolding get
lookup g id = status_of (get g.records id)

unfoldable pub contains : CommandRegistry → String → Bool
unfolding get
contains g id = is_some (get g.records id)

-- The moment from which a record counts as terminal.
abbrev pub since : ℕ → Option ℕ → ℕ
since now none = now
since now (some t) = t

unfoldable pub is_stale : ℕ → ℕ → RegistryRecord → Bool
is_stale retention now rec =
    is_terminal rec.status.lifecycle && leb retention (now - since now rec.terminal_at)

unfoldable pub stale : ℕ → ℕ → Dict String RegistryRecord → List (ℕ × String)
unfolding is_stale
stale retention now [] = []
stale retention now ((id, rec) ∷ d) =
    let rest = stale retention now d in
    if is_stale retention now rec then (since now rec.terminal_at, id) ∷ rest else rest

-- `sort(key=lambda x: x[0])`, which is stable
unfoldable pub insert_by_time : ℕ × String → List (ℕ × String) → List (ℕ × String)
insert_by_time p [] = p ∷ []
insert_by_time p (q ∷ qs) =
    let rest = insert_by_time p qs in if leb p.0 q.0 then p ∷ q ∷ qs else q ∷ rest

unfoldable pub sort_by_time : List (ℕ × String) → List (ℕ × String)
unfolding insert_by_time
sort_by_time [] = []
sort_by_time (p ∷ ps) = insert_by_time p (sort_by_time ps)

unfoldable pub pop_stale :
    ℕ → List (ℕ × String) → Dict String RegistryRecord → Dict String RegistryRecord
pop_stale most [] d = d
pop_stale most ((t, id) ∷ ps) d =
    let rest = pop_stale most ps (remove d id) in if leb (length d) most then d else rest

unfoldable pub evict_if_needed : CommandRegistry → ℕ → CommandRegistry
unfolding stale sort_by_time pop_stale
evict_if_needed g now = if leb (length g.records) g.max_records then g else record g {
  records =
      pop_stale g.max_records (sort_by_time (stale g.terminal_retention_us now g.records))
        g.records;
}

-- `put(status)`, with the reading for the record and the one of the eviction
unfoldable pub put_status : CommandRegistry → ControlCommandStatus → ℕ → ℕ → CommandRegistry
put_status g status t now =
    let new : RegistryRecord = record {
      status = status;
      terminal_at = if is_terminal status.lifecycle then some t else none;
    } in
    let grown = evict_if_needed (record g { records = put g.records status.command_id new }) now in
    if contains g status.command_id then g else grown

unfoldable pub updated : RegistryRecord → ControlCommandStatus → ℕ → RegistryRecord
updated rec status t = record {
  status = status;
  terminal_at =
      if is_terminal status.lifecycle then some (since t rec.terminal_at) else rec.terminal_at;
}

unfoldable pub update_found :
    CommandRegistry → ControlCommandStatus → ℕ → ℕ → Option RegistryRecord → CommandRegistry
unfolding put_status updated
update_found g status t now none = put_status g status t now
update_found g status t now (some rec) = record g {
  records = put g.records status.command_id (updated rec status t);
}

unfoldable pub update_status : CommandRegistry → ControlCommandStatus → ℕ → ℕ → CommandRegistry
unfolding update_found
update_status g status t now = update_found g status t now (get g.records status.command_id)
