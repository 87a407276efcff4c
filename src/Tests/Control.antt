-- ===== src/Tests/Control.antt =====
-- Tests of Control: a command accepted and sent again, and a queue that is drained.
use smart_data_models.Prelude.{
  ℕ, suc, String, true, false, Option, none, some, List, [], ◌∷◌, ◌≡◌, refl, inl, inr, arith, get,
  string_key, ◌==◌, if◌then◌else◌,
}
use smart_data_models.Control.Command.{
  force_phase, completed, queued, accepted, not_started, not_requested, running, Value, text,
  ControlCommandEnvelope, ControlCommandStatus, Engine,
}
use smart_data_models.Control.Registry.{CommandRegistry, RegistryRecord, lookup, evict_if_needed}
use smart_data_models.Control.Registry.Eviction.{get-evict_if_needed}
use smart_data_models.Control.Queue.{Command, CommandQueue, Callbacks, returned, raised, drain}
use smart_data_models.Control.Queue.Draining.{IsDrained, drain-IsDrained}
use smart_data_models.Control.Queue.Conservation.{
  Trace, Use, give, take_up_to, use_all, IsConserved, use_all-IsConserved,
}
use smart_data_models.Control.Naming.{Catalogue, known, profile}
use smart_data_models.Control.Intake.{Intake, accept_command, answered}
use smart_data_models.Control.Intake.Acceptance.{
  IsSettled, accept_command-IsSettled, accept_command-again,
}

abbrev engine : Option Engine
engine = some (record {
  runtime_state = some running;
  started = true;
  has_traci = true;
  simulation_run_id = some "run";
  preemption_active = λ (id : String). false;
})

abbrev catalogue : Catalogue
catalogue = record {
  scenario = λ (v : Value). known "normal";
  demand_profile = λ (v : Value). profile "peak";
}

abbrev envelope : ControlCommandEnvelope
envelope = record {
  command_id = "c1";
  command_type = force_phase;
  target = record { intersection_id = some "A"; direction = none; overlay_id = none };
  payload = λ (key : String). text "NS_GREEN";
  expected_run_id = "run";
  expires_at = 100;
}

abbrev intake : Intake
intake = record {
  registry = record { records = []; max_records = 10000; terminal_retention_us = 900000000 };
  commands = record { capacity = 256; items = [] };
}

accept_command-IsSettled_example :
    IsSettled intake "c1" (accept_command intake engine catalogue envelope 50)
accept_command-IsSettled_example =
    accept_command-IsSettled intake engine catalogue envelope 50 tt (unfold lookup get in refl)

accept_command-again_example :
    (st : ControlCommandStatus) × (lookup
        (accept_command intake engine catalogue envelope 50).0.registry
        "c1"
      ≡ some st)
    × (accept_command
          (accept_command intake engine catalogue envelope 50).0
          none
          catalogue
          envelope
          60
        ≡ answered (accept_command intake engine catalogue envelope 50).0 st)
accept_command-again_example =
    accept_command-again intake engine none catalogue envelope envelope 50 60 tt
      (unfold lookup get in refl) refl

abbrev status : ControlCommandStatus
status = record {
  command_id = "c1";
  lifecycle = queued;
  dispatch = accepted;
  execution = not_started;
  observation = not_requested;
  expected_run_id = "run";
  accepted_run_id = some "run";
  created_at = 0;
  updated_at = 0;
  error = none;
}

abbrev live : RegistryRecord
live = record { status = status; terminal_at = none }

abbrev done : RegistryRecord
done = record {
  status = record status { command_id = "c2"; lifecycle = completed };
  terminal_at = some 1;
}

abbrev crowded : CommandRegistry
crowded = record {
  records = ("c2", done) ∷ ("c1", live) ∷ [];
  max_records = 1;
  terminal_retention_us = 900;
}

get-evict_if_needed_example : get (evict_if_needed crowded 1000).records "c1" ≡ some live
get-evict_if_needed_example =
    get-evict_if_needed crowded 1000 "c1" live (unfold get in (refl, (refl, tt)))
      (unfold get in refl) (inl (inr (inr (inl refl))))

abbrev callbacks : Callbacks ℕ ℕ
callbacks = record {
  handlers = ("tick", λ (n : ℕ) (kwargs : List (String × Value)). (suc n, returned n)) ∷ [];
  on_start =
      λ (n : ℕ) (cmd : Command). (n, if cmd.name == "halt" then some "RuntimeError" else none);
  on_success = λ (n : ℕ) (cmd : Command) (r : ℕ). (n, none);
  on_error = λ (n : ℕ) (cmd : Command) (e : String). (n, none);
}

abbrev tick : Command
tick = record { name = "tick"; kwargs = []; command_id = none }

abbrev idle : Trace callbacks
idle = record { queue = record { capacity = 3; items = [] }; state = 0; accepted = []; taken = [] }

abbrev uses : List (Use callbacks)
uses =
    give tick
    ∷ give tick
    ∷ give tick
    ∷ take_up_to 1
    ∷ give (record tick { name = "stop" })
    ∷ give (record tick { name = "halt" })
    ∷ give tick
    ∷ take_up_to 50
    ∷ []

use_all-IsConserved_example : IsConserved callbacks (use_all callbacks idle uses)
use_all-IsConserved_example = use_all-IsConserved callbacks idle uses (refl, inr (omega arith))

abbrev halting : CommandQueue
halting = record { capacity = 3; items = tick ∷ record tick { name = "halt" } ∷ tick ∷ [] }

drain-IsDrained_example : IsDrained callbacks 50 halting (drain callbacks halting 0 50)
drain-IsDrained_example = drain-IsDrained callbacks halting 0 50

halted_at : drain callbacks halting 0 50 ≡ (
  record halting { items = tick ∷ [] },
  1,
  (tick, some 0, none) ∷ (record tick { name = "halt" }, none, none) ∷ [],
  raised "RuntimeError",
)
unfolding drain get
halted_at = refl
