-- ===== src/Control/Tracker/Ticking.antt =====
-- Visualize/control/command_executor.py: `tick`, which looks after the phases that are forced.
use smart_data_models.Prelude.{
  ℕ, String, Bool, false, not, ◌&&◌, Option, none, some, [], ◌∷◌, ltb, if◌then◌else◌, string_key,
  ◌==◌, Dict, remove,
}
use smart_data_models.Control.Command.{failed, failed_at_runtime}
use smart_data_models.Control.Tracker.{
  ActiveExecution, Tracker, Signal, Sight, change_status, complete_applied, is_pending_target,
  signal_of,
}

-- What a tick finds of a command.
pub data Finding : Type 0 where
  waiting timed_out reached : Finding

abbrev pub is_past : ℕ → Option ℕ → Bool
is_past t none = false
is_past t (some deadline) = ltb deadline t

unfoldable pub find_signal : Sight → ActiveExecution → String → Option Signal → Finding
unfolding is_pending_target
find_signal s a target none = waiting
find_signal s a target (some signal) =
    if not s.has_traci
    then waiting
    else if is_past s.simulation_time a.deadline
    then timed_out
    else if is_pending_target (some signal)
    then waiting
    else if signal.current_phase == target
    then reached
    else waiting

unfoldable pub find : Sight → ActiveExecution → Finding
unfolding find_signal signal_of
find s a = elim a.target_phase [
  | none ↦ waiting
  | some target ↦
      if a.command_type == "force_phase" && not (target == "")
      then find_signal s a target (signal_of s a)
      else waiting
]

-- `_fail_transition`; the key is popped after the loop, and nothing reads it in between.
unfoldable pub fail_transition : Tracker → String → String → ℕ → Tracker
unfolding change_status remove
fail_transition w key id now = record {
  registry =
      change_status w.registry id
        (λ st. record st {
          lifecycle = failed;
          execution = failed_at_runtime;
          error =
              some (record { code = "TRANSITION_TIMEOUT"; message = "phase transition timed out" });
        })
        now;
  active = remove w.active key;
}

unfoldable pub settle_key : Tracker → String → String → Sight → Tracker
unfolding complete_applied remove
settle_key w key id s =
    let done = complete_applied w id s in record done { active = remove done.active key }

unfoldable pub act_on : Tracker → String → ActiveExecution → Sight → Finding → Tracker
unfolding fail_transition settle_key
act_on w key a s waiting = w
act_on w key a s timed_out = fail_transition w key a.command_id s.now
act_on w key a s reached = settle_key w key a.command_id s

unfoldable pub tick_items : Dict String ActiveExecution → Sight → Tracker → Tracker
unfolding act_on find
tick_items [] s w = w
tick_items ((key, a) ∷ items) s w = tick_items items s (act_on w key a s (find s a))

-- Over a snapshot of the commands.
unfoldable pub tick : Tracker → Sight → Tracker
unfolding tick_items
tick w s = tick_items w.active s w
