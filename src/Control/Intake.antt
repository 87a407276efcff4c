-- ===== src/Control/Intake.antt =====
-- Visualize/control/command_intake.py: the checks and `accept_command`. The clock is one reading for a
-- call.
pub mod Acceptance
use smart_data_models.Prelude.{
  ℕ, zero, suc, String, ℤ, pos, negsuc, Bool, true, false, not, ◌&&◌, ◌||◌, Option, none, some,
  List, [], ◌∷◌, ltb, if◌then◌else◌, string_key, ◌==◌,
}
use smart_data_models.Prelude.Text.{clip}
use smart_data_models.Control.Command.{
  CommandType, force_phase, set_green_duration, set_scenario, set_demand_profile, add_overlay,
  remove_overlay, set_control_mode, emergency_preemption, received, validated, queued, failed,
  pending, accepted, not_started, not_requested, Value, absent, other, flag, int, text,
  ControlCommandEnvelope, ControlErrorBody, ControlCommandStatus, Engine, mutation_allowed,
  runtime_running,
}
use smart_data_models.Control.Naming.{
  Catalogue, CommandIntakeError, Looked, Named, Profile, refused, named, unnamed, broken,
  legacy_enqueue_name,
}
use smart_data_models.Control.Registry.{
  CommandRegistry, contains, lookup, put_status, update_status,
}
use smart_data_models.Control.Queue.{Command, CommandQueue, enqueue}

unfoldable pub initial_status : ControlCommandEnvelope → ℕ → ControlCommandStatus
initial_status env now = record {
  command_id = env.command_id;
  lifecycle = received;
  dispatch = pending;
  execution = not_started;
  observation = not_requested;
  expected_run_id = env.expected_run_id;
  accepted_run_id = none;
  created_at = now;
  updated_at = now;
  error = none;
}

abbrev pub drives_signal : CommandType → Bool
drives_signal force_phase = true
drives_signal set_green_duration = true
drives_signal _ = false

-- `if iid and ...`: a missing or empty intersection is under no preemption.
unfoldable pub is_preempted : Option Engine → Option String → Bool
is_preempted none target = false
is_preempted (some engine) none = false
is_preempted (some engine) (some id) = not (id == "") && engine.preemption_active id

abbrev pub is_run : String → Option String → Bool
is_run expected none = false
is_run expected (some run) = run == expected

-- The answer of the checks, given the run that may be changed.
unfoldable pub check_run :
    Option Engine → ControlCommandEnvelope → ℕ → Option String → Option CommandIntakeError
unfolding is_preempted
check_run engine env now none = some (refused 503 "SIMULATION_NOT_RUNNING")
check_run engine env now (some run) =
    if ltb env.expires_at now
    then some (refused 409 "COMMAND_EXPIRED")
    else if not (run == env.expected_run_id)
    then some (refused 409 "STALE_RUN")
    else if drives_signal env.command_type && is_preempted engine env.target.intersection_id
    then some (refused 409 "PREEMPTION_ACTIVE")
    else none

unfoldable pub validate_runtime :
    Option Engine → ControlCommandEnvelope → ℕ → Option CommandIntakeError
unfolding check_run
validate_runtime engine env now = check_run engine env now (mutation_allowed engine)

pub record Intake : Type 0 where
  pub registry : CommandRegistry
  pub commands : CommandQueue

abbrev pub Answer : Type 0
Answer = Intake × Option ControlCommandStatus × Option CommandIntakeError

abbrev pub answered : Intake → ControlCommandStatus → Answer
answered w status = (w, some status, none)

abbrev pub rejected : Intake → CommandIntakeError → Answer
rejected w e = (w, none, some e)

unfoldable pub told : Intake → ControlCommandStatus → ℕ → Intake
told w status now = record w { registry = update_status w.registry status now now }

-- The end of the intake of a validated command, given what the queue answers.
unfoldable pub settle : Intake → ControlCommandStatus → ℕ → Option CommandQueue → Answer
unfolding told
settle w status now none =
    rejected
      (told w
        (record status {
          lifecycle = failed;
          dispatch = failed;
          execution = not_started;
          error = some (record { code = "QUEUE_FULL"; message = "Command queue full" });
          updated_at = now;
        })
        now)
      (refused 503 "QUEUE_FULL")
settle w status now (some q) =
    let done = record status {
      lifecycle = queued;
      dispatch = accepted;
      execution = queued;
      updated_at = now;
    } in
    answered (told (record w { commands = q }) done now) done

unfoldable pub submit :
    Intake → Option Engine → ControlCommandEnvelope → ℕ → ControlCommandStatus → Named → Answer
unfolding told settle
submit w engine env now status (unnamed e) = rejected w e
submit w engine env now status (broken e) =
    rejected
      (told w
        (record status {
          lifecycle = failed;
          dispatch = failed;
          error = some (record { code = "INVALID_COMMAND"; message = clip 512 e });
          updated_at = now;
        })
        now)
      (refused 400 "INVALID_COMMAND")
submit w engine env now status (named name kwargs) =
    let valid = record status {
      lifecycle = validated;
      accepted_run_id = runtime_running engine;
      updated_at = now;
    } in
    settle (told w valid now) valid now (
      enqueue w.commands
        (record { name = name; kwargs = kwargs; command_id = some env.command_id }))

-- An intake error of the checks is raised again as it is: the status stays as it was put.
unfoldable pub checked :
    Intake
    → Option Engine
    → Catalogue
    → ControlCommandEnvelope
    → ℕ
    → Option CommandIntakeError
    → Answer
unfolding submit
checked w engine cfg env now (some e) = rejected w e
checked w engine cfg env now none =
    submit w engine env now (initial_status env now) (legacy_enqueue_name cfg env)

unfoldable pub accept_new : Intake → Option Engine → Catalogue → ControlCommandEnvelope → ℕ → Answer
unfolding checked
accept_new w engine cfg env now =
    checked (record w { registry = put_status w.registry (initial_status env now) now now }) engine
      cfg env now (validate_runtime engine env now)

unfoldable pub accept_found :
    Intake
    → Option Engine
    → Catalogue
    → ControlCommandEnvelope
    → ℕ
    → Option ControlCommandStatus
    → Answer
unfolding accept_new
accept_found w engine cfg env now (some existing) = answered w existing
accept_found w engine cfg env now none = accept_new w engine cfg env now

unfoldable pub accept_command :
    Intake → Option Engine → Catalogue → ControlCommandEnvelope → ℕ → Answer
unfolding accept_found
accept_command w engine cfg env now =
    accept_found w engine cfg env now (lookup w.registry env.command_id)
