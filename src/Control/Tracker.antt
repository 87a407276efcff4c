-- ===== src/Control/Tracker.antt =====
-- Visualize/control/command_executor.py: `CommandExecutionTracker`, which follows a command until it is
-- applied or has failed. A simulation time is a number of milliseconds. What goes only into the result of
-- a command (`result`, seconds, scenario) is left out, like that field of the status.
pub mod Ticking
pub mod Settling
pub mod Conditions
pub mod Calls
use smart_data_models.Prelude.{
  ℕ, ◌+◌, String, Bool, true, false, not, ◌&&◌, Option, none, some, List, [], ◌∷◌, ltb,
  if◌then◌else◌, string_key, ◌==◌, Dict, get, put, remove,
}
use smart_data_models.Control.Command.{
  Value, text, absent, other, flag, int, LifecycleStatus, queued, applying, completed, failed,
  DispatchStatus, accepted, ExecutionStatus, executing, transitioning, applied_at_sumo,
  failed_at_runtime, not_requested, ControlErrorBody, ControlCommandStatus, run_of,
}
use smart_data_models.Control.Registry.{CommandRegistry, lookup, put_status, update_status}
use smart_data_models.Control.Queue.{Command}

pub record ActiveExecution : Type 0 where
  pub command_id : String
  pub command_type : String
  pub node_id : Option String
  pub target_phase : Option String
  pub deadline : Option ℕ

pub record Tracker : Type 0 where
  pub registry : CommandRegistry
  pub active : Dict String ActiveExecution

-- What is read of a signal: the phase that it shall reach, and the one that it shows.
pub record Signal : Type 0 where
  pub pending_target : Option String
  pub current_phase : String

-- What a call reads of the engine, with the reading of the clock.
pub record Sight : Type 0 where
  pub simulation_time : ℕ
  pub simulation_run_id : Option String
  pub has_traci : Bool
  pub signals : String → Option Signal
  pub now : ℕ

abbrev pub transition_timeout_ms : ℕ
transition_timeout_ms = 30000

-- `_update_status`, for a change of the current status; an id that is not known is left alone.
unfoldable pub change_status :
    CommandRegistry → String → (ControlCommandStatus → ControlCommandStatus) → ℕ → CommandRegistry
unfolding lookup update_status
change_status g id change now = elim (lookup g id) [
  | none ↦ g
  | some st ↦ update_status g (record (change st) { updated_at = now }) now now
]

abbrev pub run_text : Option String → String
run_text none = ""
run_text (some run) = run

unfoldable pub new_status : String → Sight → ControlCommandStatus
new_status id s = record {
  command_id = id;
  lifecycle = queued;
  dispatch = accepted;
  execution = ExecutionStatus.queued;
  observation = not_requested;
  expected_run_id = run_text s.simulation_run_id;
  accepted_run_id = some (run_text s.simulation_run_id);
  created_at = s.now;
  updated_at = s.now;
  error = none;
}

unfoldable pub text_of : Option Value → Option String
text_of none = none
text_of (some (text t)) = some t
text_of (some absent) = none
text_of (some other) = none
text_of (some (flag b)) = none
text_of (some (int n)) = none

unfoldable pub node_of : Command → Option String
unfolding text_of get
node_of cmd =
    if cmd.name == "force_phase"
    then text_of (get cmd.kwargs "node_id")
    else if cmd.name == "set_green_duration"
    then text_of (get cmd.kwargs "node_id")
    else if cmd.name == "set_scenario"
    then text_of (get cmd.kwargs "target_intersection")
    else if cmd.name == "add_overlay"
    then text_of (get cmd.kwargs "intersection_id")
    else none

unfoldable pub phase_of : Command → Option String
unfolding text_of get
phase_of cmd = if cmd.name == "force_phase" then text_of (get cmd.kwargs "phase") else none

unfoldable pub started : String → Command → ActiveExecution
unfolding node_of phase_of
started id cmd = record {
  command_id = id;
  command_type = cmd.name;
  node_id = node_of cmd;
  target_phase = phase_of cmd;
  deadline = none;
}

-- `UUID(cmd.command_id)`: the canonical text, or `none` for the ValueError.
abbrev pub Uuid : Type 0
Uuid = String → Option String

unfoldable pub id_of : Uuid → Command → Option String
id_of uuid cmd = elim cmd.command_id [ none ↦ none | some id ↦ if id == "" then none else uuid id ]

unfoldable pub registered : CommandRegistry → String → Sight → CommandRegistry
unfolding lookup put_status new_status
registered g id s = elim (lookup g id) [
  | none ↦ put_status g (new_status id s) s.now s.now
  | some st ↦ g
]

unfoldable pub start : Tracker → Command → Sight → Option String → Tracker
unfolding registered change_status started put
start w cmd s none = w
start w cmd s (some id) = record {
  registry =
      change_status (registered w.registry id s) id
        (λ st. record st { lifecycle = applying; execution = executing }) s.now;
  active = put w.active id (started id cmd);
}

unfoldable pub on_command_start : Uuid → Tracker → Command → Sight → Tracker
unfolding start id_of
on_command_start uuid w cmd s = start w cmd s (id_of uuid cmd)

abbrev pub as_completed : Sight → ControlCommandStatus → ControlCommandStatus
as_completed s st = record st {
  lifecycle = completed;
  dispatch = accepted;
  execution = applied_at_sumo;
  accepted_run_id = run_of s.simulation_run_id;
  error = none;
}

abbrev pub as_failed : ControlErrorBody → ControlCommandStatus → ControlCommandStatus
as_failed e st = record st {
  lifecycle = failed;
  dispatch = accepted;
  execution = failed_at_runtime;
  error = some e;
}

unfoldable pub complete_applied : Tracker → String → Sight → Tracker
unfolding change_status remove
complete_applied w id s = record {
  registry = change_status w.registry id (as_completed s) s.now;
  active = remove w.active id;
}

-- `active.node_id or ""`
unfoldable pub signal_of : Sight → ActiveExecution → Option Signal
signal_of s a = s.signals (run_text a.node_id)

unfoldable pub is_pending_target : Option Signal → Bool
is_pending_target none = false
is_pending_target (some signal) = elim signal.pending_target [
  | none ↦ false
  | some t ↦ not (t == "")
]

-- The signal of a phase that is forced has not switched yet: the command waits, with a deadline.
unfoldable pub await_transition : Tracker → String → ActiveExecution → Sight → Tracker
unfolding change_status put
await_transition w id a s = record {
  registry = change_status w.registry id (λ st. record st { execution = transitioning }) s.now;
  active =
      put w.active id (record a { deadline = some (s.simulation_time + transition_timeout_ms) });
}

unfoldable pub is_awaited : Command → Sight → ActiveExecution → Bool
unfolding is_pending_target signal_of
is_awaited cmd s a = cmd.name == "force_phase" && is_pending_target (signal_of s a)

unfoldable pub succeed : Tracker → String → Command → Sight → Option ActiveExecution → Tracker
unfolding complete_applied await_transition is_awaited
succeed w id cmd s none = complete_applied w id s
succeed w id cmd s (some a) =
    if is_awaited cmd s a then await_transition w id a s else complete_applied w id s

unfoldable pub succeed_named : Tracker → Command → Sight → Option String → Tracker
unfolding succeed get
succeed_named w cmd s none = w
succeed_named w cmd s (some id) = succeed w id cmd s (get w.active id)

unfoldable pub on_command_success : Uuid → Tracker → Command → Sight → Tracker
unfolding succeed_named id_of
on_command_success uuid w cmd s = succeed_named w cmd s (id_of uuid cmd)

unfoldable pub fail : Tracker → String → ControlErrorBody → ℕ → Tracker
unfolding change_status remove
fail w id e now = record {
  registry = change_status w.registry id (as_failed e) now;
  active = remove w.active id;
}

-- The error body has the code and the text of the exception.
unfoldable pub fail_named : Tracker → ControlErrorBody → ℕ → Option String → Tracker
unfolding fail
fail_named w e now none = w
fail_named w e now (some id) = fail w id e now

unfoldable pub on_command_error : Uuid → Tracker → Command → ControlErrorBody → ℕ → Tracker
unfolding fail_named id_of
on_command_error uuid w cmd e now = fail_named w e now (id_of uuid cmd)
