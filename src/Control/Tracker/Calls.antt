-- ===== src/Control/Tracker/Calls.antt =====
-- Any sequence of calls of the tracker of Visualize/control/command_executor.py.
use smart_data_models.Prelude.{
  ℕ, String, Option, none, some, List, [], ◌∷◌, ◌≡◌, refl, sym, ap, subst, ◌⊎◌, inl, inr, if-elim,
  string_key, Dict, get, put, remove, All-put, All-remove, All-get, Distinct, put-Distinct,
  remove-Distinct,
}
use smart_data_models.Control.Command.{ControlErrorBody}
use smart_data_models.Control.Registry.{CommandRegistry}
use smart_data_models.Control.Queue.{Command}
use smart_data_models.Control.Tracker.{
  ActiveExecution, Tracker, Sight, Uuid, start, started, on_command_start, complete_applied,
  await_transition, is_awaited, succeed, succeed_named, fail_named, on_command_success, fail,
  on_command_error, id_of,
}
use smart_data_models.Control.Tracker.Ticking.{
  Finding, waiting, timed_out, reached, fail_transition, settle_key, act_on, find, tick_items, tick,
}
use smart_data_models.Control.Tracker.Conditions.{Ends, IsDecided, find-IsDecided}
use smart_data_models.Control.Tracker.Settling.{IsKeyed, remaining, get-tick}

pub data Call : Type 0 where
  started_call : Command → Sight → Call
  success_call : Command → Sight → Call
  error_call : Command → ControlErrorBody → ℕ → Call
  tick_call : Sight → Call

unfoldable pub call : Uuid → Call → Tracker → Tracker
unfolding on_command_start on_command_success on_command_error tick
call uuid (started_call cmd s) w = on_command_start uuid w cmd s
call uuid (success_call cmd s) w = on_command_success uuid w cmd s
call uuid (error_call cmd e now) w = on_command_error uuid w cmd e now
call uuid (tick_call s) w = tick w s

unfoldable pub call_all : Uuid → List Call → Tracker → Tracker
unfolding call
call_all uuid [] w = w
call_all uuid (x ∷ xs) w = call_all uuid xs (call uuid x w)

-- Every command is followed once, and under its own id.
IsTracked : Dict String ActiveExecution → Type 0
IsTracked d = IsKeyed d × Distinct d

remove-IsTracked :
    (d : Dict String ActiveExecution) (key : String) → IsTracked d → IsTracked (remove d key)
unfolding IsTracked
remove-IsTracked d key h = (
  All-remove (λ (p : String × ActiveExecution). p.1.command_id ≡ p.0) d key h.0,
  remove-Distinct d key h.1,
)

put-IsTracked :
    (d : Dict String ActiveExecution) (key : String) (a : ActiveExecution)
    → a.command_id ≡ key
    → IsTracked d
    → IsTracked (put d key a)
unfolding IsTracked
put-IsTracked d key a own h = (
  All-put (λ (p : String × ActiveExecution). p.1.command_id ≡ p.0) d key a h.0 own,
  put-Distinct d key a h.1,
)

start-IsTracked :
    (w : Tracker) (cmd : Command) (s : Sight) (o : Option String)
    → IsTracked w.active
    → IsTracked (start w cmd s o).active
unfolding start started
start-IsTracked w cmd s none h = h
start-IsTracked w cmd s (some id) h = put-IsTracked w.active id (started id cmd) refl h

complete_applied-IsTracked :
    (w : Tracker) (id : String) (s : Sight)
    → IsTracked w.active
    → IsTracked (complete_applied w id s).active
unfolding complete_applied
complete_applied-IsTracked w id s h = remove-IsTracked w.active id h

succeed-IsTracked :
    (w : Tracker) (id : String) (cmd : Command) (s : Sight) (o : Option ActiveExecution)
    → get w.active id ≡ o
    → IsTracked w.active
    → IsTracked (succeed w id cmd s o).active
unfolding succeed await_transition IsTracked
succeed-IsTracked w id cmd s none e h = complete_applied-IsTracked w id s h
succeed-IsTracked w id cmd s (some a) e h =
    if-elim (λ (x : Tracker). IsTracked x.active) (is_awaited cmd s a) (await_transition w id a s)
      (complete_applied w id s)
      (put-IsTracked w.active id _
        (All-get (λ (p : String × ActiveExecution). p.1.command_id ≡ p.0) w.active id a h.0 e) h)
      (complete_applied-IsTracked w id s h)

act_on-IsTracked :
    (w : Tracker) (key : String) (a : ActiveExecution) (s : Sight) (f : Finding)
    → IsTracked w.active
    → IsTracked (act_on w key a s f).active
unfolding act_on fail_transition settle_key complete_applied
act_on-IsTracked w key a s waiting h = h
act_on-IsTracked w key a s timed_out h = remove-IsTracked w.active key h
act_on-IsTracked w key a s reached h =
    remove-IsTracked (remove w.active a.command_id) key (remove-IsTracked w.active a.command_id h)

tick_items-IsTracked :
    (items : Dict String ActiveExecution) (s : Sight) (w : Tracker)
    → IsTracked w.active
    → IsTracked (tick_items items s w).active
unfolding tick_items
tick_items-IsTracked [] s w h = h
tick_items-IsTracked ((key, a) ∷ items) s w h =
    tick_items-IsTracked items s (act_on w key a s (find s a))
      (act_on-IsTracked w key a s (find s a) h)

succeed_named-IsTracked :
    (w : Tracker) (cmd : Command) (s : Sight) (o : Option String)
    → IsTracked w.active
    → IsTracked (succeed_named w cmd s o).active
unfolding succeed_named
succeed_named-IsTracked w cmd s none h = h
succeed_named-IsTracked w cmd s (some id) h = succeed-IsTracked w id cmd s (get w.active id) refl h

fail_named-IsTracked :
    (w : Tracker) (e : ControlErrorBody) (now : ℕ) (o : Option String)
    → IsTracked w.active
    → IsTracked (fail_named w e now o).active
unfolding fail_named fail
fail_named-IsTracked w e now none h = h
fail_named-IsTracked w e now (some id) h = remove-IsTracked w.active id h

call-IsTracked :
    (uuid : Uuid) (x : Call) (w : Tracker) → IsTracked w.active → IsTracked (call uuid x w).active
unfolding call on_command_start on_command_success on_command_error tick
call-IsTracked uuid (started_call cmd s) w h = start-IsTracked w cmd s (id_of uuid cmd) h
call-IsTracked uuid (success_call cmd s) w h = succeed_named-IsTracked w cmd s (id_of uuid cmd) h
call-IsTracked uuid (error_call cmd e now) w h = fail_named-IsTracked w e now (id_of uuid cmd) h
call-IsTracked uuid (tick_call s) w h = tick_items-IsTracked w.active s w h

call_all-IsTracked :
    (uuid : Uuid) (xs : List Call) (w : Tracker)
    → IsTracked w.active
    → IsTracked (call_all uuid xs w).active
unfolding call_all
call_all-IsTracked uuid [] w h = h
call_all-IsTracked uuid (x ∷ xs) w h =
    call_all-IsTracked uuid xs (call uuid x w) (call-IsTracked uuid x w h)

-- The command is followed no more where it ends, and is as it was where it does not.
abbrev pub IsTicked : Sight → ActiveExecution → Option ActiveExecution → Type 0
IsTicked s a after = (Ends s a × (after ≡ none)) ⊎ ((¬ Ends s a) × (after ≡ some a))

remaining-IsTicked :
    (s : Sight) (a : ActiveExecution) (f : Finding) → IsDecided s a f → IsTicked s a (remaining f a)
remaining-IsTicked s a f (inl (inl late, ends)) = inl (ends, ap (λ g. remaining g a) late)
remaining-IsTicked s a f (inl (inr there, ends)) = inl (ends, ap (λ g. remaining g a) there)
remaining-IsTicked s a f (inr (waits, stays)) = inr (stays, ap (λ g. remaining g a) waits)

-- After any sequence of calls on a new tracker, a tick stops to follow a command exactly where it forces a
-- phase of a signal that the engine can read, and either its deadline is past, or the signal has no phase
-- left to reach and shows that phase. A command where this is not so is left as it is, whatever the others
-- are.
pub get-tick-call_all :
    (uuid : Uuid) (xs : List Call) (g : CommandRegistry) (s : Sight) (key : String)
    (a : ActiveExecution)
    → get (call_all uuid xs (record { registry = g; active = [] })).active key ≡ some a
    → IsTicked s a
        (get (tick (call_all uuid xs (record { registry = g; active = [] })) s).active key)
unfolding IsTracked
get-tick-call_all uuid xs g s key a h =
    let w = call_all uuid xs (record { registry = g; active = [] }) in
    let tracked = call_all-IsTracked uuid xs (record { registry = g; active = [] }) (tt, tt) in
    subst (IsTicked s a) (sym (get-tick w s key a tracked.0 tracked.1 h))
      (remaining-IsTicked s a (find s a) (find-IsDecided s a))
