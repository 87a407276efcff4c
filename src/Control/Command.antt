-- ===== src/Control/Command.antt =====
-- Visualize/control/models.py and runtime_state.py: the commands, their status, and whether the
-- simulation takes one. A UUID is its text, a date a number of microseconds.
use smart_data_models.Prelude.{
  ℕ, String, ℤ, Bool, true, false, Option, none, some, if◌then◌else◌, string_key, ◌==◌, ◌≡◌, arith,
}

pub data CommandType : Type 0 where
  force_phase set_green_duration set_scenario set_demand_profile : CommandType
  add_overlay remove_overlay set_control_mode emergency_preemption : CommandType

pub data LifecycleStatus : Type 0 where
  received validated queued applying completed failed expired unknown_outcome : LifecycleStatus

pub data DispatchStatus : Type 0 where
  pending dispatching accepted failed unknown : DispatchStatus

pub data ExecutionStatus : Type 0 where
  not_started queued executing transitioning applied_at_sumo failed_at_runtime : ExecutionStatus

pub data ObservationStatus : Type 0 where
  not_requested pending confirmed mismatch timed_out unavailable not_observable : ObservationStatus

-- A value of a command's payload; `other` is any value that is no text and no integer.
pub data Value : Type 0 where
  absent other : Value
  flag : Bool → Value
  int : ℤ → Value
  text : String → Value

pub record ControlTarget : Type 0 where
  pub intersection_id : Option String
  pub direction : Option String
  pub overlay_id : Option String

-- The payload is a function: `payload.get(key)`.
pub record ControlCommandEnvelope : Type 0 where
  pub command_id : String
  pub command_type : CommandType
  pub target : ControlTarget
  pub payload : String → Value
  pub expected_run_id : String
  pub expires_at : ℕ

pub record ControlErrorBody : Type 0 where
  pub code : String
  pub message : String

-- `links`, which the id determines, and `result`, which the intake never sets, are left out.
pub record ControlCommandStatus : Type 0 where
  pub command_id : String
  pub lifecycle : LifecycleStatus
  pub dispatch : DispatchStatus
  pub execution : ExecutionStatus
  pub observation : ObservationStatus
  pub expected_run_id : String
  pub accepted_run_id : Option String
  pub created_at : ℕ
  pub updated_at : ℕ
  pub error : Option ControlErrorBody

pub data SimulationRuntimeState : Type 0 where
  starting running stopping stopped failed : SimulationRuntimeState

abbrev pub is_running : SimulationRuntimeState → Bool
is_running running = true
is_running starting = false
is_running stopping = false
is_running stopped = false
is_running failed = false

-- The attributes of the engine that are read; a missing one is `none` or `false`. The last field
-- tells whether the signal of an intersection is under preemption.
pub record Engine : Type 0 where
  pub runtime_state : Option SimulationRuntimeState
  pub started : Bool
  pub has_traci : Bool
  pub simulation_run_id : Option String
  pub preemption_active : String → Bool

unfoldable pub runtime_state_of : Option Engine → SimulationRuntimeState
runtime_state_of none = stopped
runtime_state_of (some engine) = elim engine.runtime_state [
  | some state ↦ state
  | none ↦ if engine.started then (if engine.has_traci then running else stopped) else stopped
]

-- `if not run_id`: the empty text counts as none.
unfoldable pub run_of : Option String → Option String
run_of none = none
run_of (some run) = if run == "" then none else some run

-- The run that a command may change; `none` where no change is allowed.
unfoldable pub mutation_allowed : Option Engine → Option String
unfolding runtime_state_of run_of
mutation_allowed none = none
mutation_allowed (some engine) =
    if is_running (runtime_state_of (some engine))
    then (if engine.started
        then (if engine.has_traci then run_of engine.simulation_run_id else none)
        else none)
    else none

-- `_runtime_running` of command_intake.py, which does not ask for the connection.
unfoldable pub runtime_running : Option Engine → Option String
unfolding run_of
runtime_running none = none
runtime_running (some engine) = if engine.started then run_of engine.simulation_run_id else none

-- Where a change is allowed, the run that the intake stamps on the command is that run.
pub runtime_running-mutation_allowed :
    (engine : Option Engine) (run : String)
    → mutation_allowed engine ≡ some run
    → runtime_running engine ≡ some run
unfolding mutation_allowed runtime_running
runtime_running-mutation_allowed none run h = cc h
runtime_running-mutation_allowed (some engine) run h = ground (arith, h)
