-- ===== src/Tests/Tracker.antt =====
-- Tests of Control/Tracker: a phase that is forced, waits for its signal, and runs past its deadline.
use smart_data_models.Prelude.{
  ℕ, String, true, none, some, List, [], ◌∷◌, ◌≡◌, ◌⊎◌, refl, get, string_key,
}
use smart_data_models.Control.Command.{completed, text, ControlCommandStatus}
use smart_data_models.Control.Registry.{CommandRegistry, lookup, contains, evict_if_needed}
use smart_data_models.Control.Queue.{Command}
use smart_data_models.Control.Tracker.{
  ActiveExecution, Tracker, Sight, Uuid, on_command_start, on_command_success, id_of,
}
use smart_data_models.Control.Tracker.Ticking.{tick}
use smart_data_models.Control.Tracker.Settling.{
  HasToReach, IsDone, IsTransitioning, IsSettledAs, on_command_success-cases,
}
use smart_data_models.Control.Tracker.Calls.{
  Call, started_call, success_call, call_all, IsTicked, get-tick-call_all,
}

abbrev registry : CommandRegistry
registry = record { records = []; max_records = 10000; terminal_retention_us = 900000000 }

abbrev uuid : Uuid
uuid id = some id

abbrev force : Command
force = record {
  name = "force_phase";
  kwargs = ("node_id", text "A") ∷ ("phase", text "NS_GREEN") ∷ [];
  command_id = some "c1";
}

abbrev sight : ℕ → String → Sight
sight t shown = record {
  simulation_time = t;
  simulation_run_id = some "run";
  has_traci = true;
  signals =
      λ (node : String). some (record { pending_target = some "NS_GREEN"; current_phase = shown });
  now = t;
}

abbrev calls : List Call
calls = started_call force (sight 1000 "EW_GREEN") ∷ success_call force (sight 1000 "EW_GREEN") ∷ []

abbrev followed : ActiveExecution
followed = record {
  command_id = "c1";
  command_type = "force_phase";
  node_id = some "A";
  target_phase = some "NS_GREEN";
  deadline = some 31000;
}

abbrev late : Sight
late = sight 31001 "EW_GREEN"

dropped_late :
    get (tick (call_all uuid calls (record { registry = registry; active = [] })) late).active "c1"
    ≡ none
unfolding call_all tick get
dropped_late = refl

get-tick-call_all_example : IsTicked late followed (
    get (tick (call_all uuid calls (record { registry = registry; active = [] })) late).active "c1")
unfolding call_all get
get-tick-call_all_example = get-tick-call_all uuid calls registry late "c1" followed refl

abbrev begun : Tracker
begun =
    on_command_start uuid (record { registry = registry; active = [] }) force
      (sight 1000 "EW_GREEN")

known :
    (st : ControlCommandStatus) × (lookup begun.registry "c1" ≡ some st) × (st.command_id ≡ "c1")
unfolding on_command_start lookup contains evict_if_needed
known = (_, refl, refl)

on_command_success-cases_example :
    (HasToReach force (sight 1000 "EW_GREEN") (record followed { deadline = none })
      × IsTransitioning "c1"
          (record followed { deadline = none })
          31000
          (on_command_success uuid begun force (sight 1000 "EW_GREEN")))
    ⊎ (IsDone force (sight 1000 "EW_GREEN") (record followed { deadline = none })
        × IsSettledAs "c1" completed (on_command_success uuid begun force (sight 1000 "EW_GREEN")))
unfolding on_command_start id_of get
on_command_success-cases_example =
    on_command_success-cases uuid begun force (sight 1000 "EW_GREEN") "c1"
      (record followed { deadline = none }) known.0 refl refl known.1 known.2
