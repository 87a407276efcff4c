-- ===== src/Control/Tracker/Settling.antt =====
-- What a tick and the callbacks of Visualize/control/command_executor.py settle.
use smart_data_models.Prelude.{
  ℕ, String, true, false, ◌⊎◌, ◌≢◌, ◌+◌, get-put, Option, none, some, [], ◌∷◌, ◌≡◌, refl, sym, ap,
  ◌∙◌, subst, inl, inr, Bool-cases, if-true, if-false, string_key, ◌==◌, Dict, get, remove,
  get-remove, same_refl, All, Distinct,
}
use text.Mathlib.TextEquality.{eq_iff}
use smart_data_models.Control.Tracker.Conditions.{
  HasTarget, HasNoTarget, differs, is_pending_target-cases,
}
use smart_data_models.Control.Command.{
  transitioning, LifecycleStatus, completed, failed, ControlCommandStatus, ControlErrorBody,
}
use smart_data_models.Control.Registry.{CommandRegistry, lookup, update_found, update_status}
use smart_data_models.Control.Queue.{Command}
use smart_data_models.Control.Intake.Acceptance.{lookup-update_found}
use smart_data_models.Control.Tracker.{
  change_status, fail, on_command_error, on_command_success, succeed, succeed_named, fail_named,
  is_awaited, await_transition, as_completed, as_failed, Uuid, id_of, ActiveExecution, Tracker,
  Sight, complete_applied, Signal, signal_of, run_text,
}
use smart_data_models.Control.Tracker.Ticking.{
  Finding, waiting, timed_out, reached, fail_transition, settle_key, act_on, find, tick_items, tick,
}

-- Every command stands under its own id.
abbrev pub IsKeyed : Dict String ActiveExecution → Type 0
IsKeyed = All (λ (p : String × ActiveExecution). p.1.command_id ≡ p.0)

-- What is left of a command after a tick that has found this of it.
abbrev pub remaining : Finding → ActiveExecution → Option ActiveExecution
remaining waiting a = some a
remaining timed_out a = none
remaining reached a = none

removed : (d : Dict String ActiveExecution) (key : String) → get (remove d key) key ≡ none
removed d key = get-remove d key key ∙ if-true none (get d key) (same_refl key)

kept :
    (d : Dict String ActiveExecution) (j key : String)
    → (j == key) ≡ false
    → get (remove d j) key ≡ get d key
kept d j key away = get-remove d j key ∙ if-false none (get d key) away

act_on-here :
    (w : Tracker) (key : String) (a : ActiveExecution) (s : Sight) (f : Finding)
    → get w.active key ≡ some a
    → get (act_on w key a s f).active key ≡ remaining f a
unfolding act_on fail_transition settle_key complete_applied
act_on-here w key a s waiting h = h
act_on-here w key a s timed_out h = removed w.active key
act_on-here w key a s reached h = removed (remove w.active a.command_id) key

act_on-away :
    (w : Tracker) (j key : String) (b : ActiveExecution) (s : Sight) (f : Finding)
    → b.command_id ≡ j
    → (j == key) ≡ false
    → get (act_on w j b s f).active key ≡ get w.active key
unfolding act_on fail_transition settle_key complete_applied
act_on-away w j key b s waiting own away = refl
act_on-away w j key b s timed_out own away = kept w.active j key away
act_on-away w j key b s reached own away =
    kept (remove w.active b.command_id) j key away
    ∙ kept w.active b.command_id key (subst (λ k. (k == key) ≡ false) (sym own) away)

tick_items-away :
    (items : Dict String ActiveExecution) (s : Sight) (w : Tracker) (key : String)
    → IsKeyed items
    → get items key ≡ none
    → get (tick_items items s w).active key ≡ get w.active key
unfolding tick_items get
tick_items-away [] s w key own h = refl
tick_items-away ((j, b) ∷ items) s w key own h = elim (Bool-cases (j == key)) [
  | inl here ↦ absurd (cc (sym (if-true (some b) (get items key) here) ∙ h))
  | inr away ↦
      tick_items-away items s (act_on w j b s (find s b)) key own.1
        (sym (if-false (some b) (get items key) away) ∙ h)
      ∙ act_on-away w j key b s (find s b) own.0 away
]

tick_items-here :
    (items : Dict String ActiveExecution) (s : Sight) (w : Tracker) (key : String)
    (a : ActiveExecution)
    → IsKeyed items
    → Distinct items
    → get items key ≡ some a
    → get w.active key ≡ some a
    → get (tick_items items s w).active key ≡ remaining (find s a) a
unfolding tick_items get
tick_items-here [] s w key a own u h k = absurd (cc h)
tick_items-here ((j, b) ∷ items) s w key a own u h k = elim (Bool-cases (j == key)) [
  | inl here ↦
      let same : j ≡ key = (string_key.same_iff j key).0 here in
      let found : b ≡ a = some-some (sym (if-true (some b) (get items key) here) ∙ h) in
      tick_items-away items s (act_on w j b s (find s b)) key own.1
        (subst (λ i. get items i ≡ none) same u.0)
      ∙ (ap (λ i. get (act_on w i b s (find s b)).active key) same
          ∙ (ap (λ x. get (act_on w key x s (find s x)).active key) found
              ∙ act_on-here w key a s (find s a) k))
  | inr away ↦
      tick_items-here items s (act_on w j b s (find s b)) key a own.1 u.1
        (sym (if-false (some b) (get items key) away) ∙ h)
        (act_on-away w j key b s (find s b) own.0 away ∙ k)
]
  where
    some-some : {x y : ActiveExecution} → some x ≡ some y → x ≡ y
    some-some e = cc e

-- Among commands that stand under their own ids, each once, a tick stops to follow exactly those whose
-- phase is reached or whose deadline is past, whatever the other commands are, and leaves the others as
-- they are.
pub get-tick :
    (w : Tracker) (s : Sight) (key : String) (a : ActiveExecution)
    → IsKeyed w.active
    → Distinct w.active
    → get w.active key ≡ some a
    → get (tick w s).active key ≡ remaining (find s a) a
unfolding tick
get-tick w s key a own u h = tick_items-here w.active s w key a own u h h

lookup-changed :
    (g : CommandRegistry) (id : String) (change : ControlCommandStatus → ControlCommandStatus)
    (now : ℕ) (st : ControlCommandStatus)
    → lookup g id ≡ some st
    → (change st).command_id ≡ id
    → lookup (change_status g id change now) id ≡ some (record (change st) { updated_at = now })
unfolding change_status update_status
lookup-changed g id change now st h same =
    let new = record (change st) { updated_at = now } in
    ap (λ o. lookup (changed_to o) id) h
    ∙ subst (λ i. lookup (update_found g new now now (get g.records i)) id ≡ some new) (sym same)
        (subst (λ i. lookup (update_found g new now now (get g.records id)) i ≡ some new) same
          (lookup-update_found g new st now now (get g.records id) (unfold lookup in h)))
  where
    changed_to : Option ControlCommandStatus → CommandRegistry
    changed_to none = g
    changed_to (some x) = update_status g (record (change x) { updated_at = now }) now now

-- The command is recorded as completed or as failed, and is no longer followed.
pub record IsSettledAs (id : String) (lifecycle : LifecycleStatus) (w : Tracker) : Type 0 where
  pub settled :
      (st : ControlCommandStatus) × (lookup w.registry id ≡ some st) × (st.lifecycle ≡ lifecycle)
  pub dropped : get w.active id ≡ none

complete_applied-IsSettledAs :
    (w : Tracker) (id : String) (s : Sight) (st : ControlCommandStatus)
    → lookup w.registry id ≡ some st
    → st.command_id ≡ id
    → IsSettledAs id completed (complete_applied w id s)
unfolding complete_applied
complete_applied-IsSettledAs w id s st h same = record {
  settled = (
    record (as_completed s st) { updated_at = s.now },
    lookup-changed w.registry id (as_completed s) s.now st h same,
    refl,
  );
  dropped = removed w.active id;
}

-- The command is recorded as in transition, and is followed until the deadline.
pub record IsTransitioning (id : String) (a : ActiveExecution) (deadline : ℕ) (w : Tracker)
    : Type 0 where
  pub changes :
      (st : ControlCommandStatus) × (lookup w.registry id ≡ some st)
      × (st.execution ≡ transitioning)
  pub followed : get w.active id ≡ some (record a { deadline = some deadline })

await_transition-IsTransitioning :
    (w : Tracker) (id : String) (a : ActiveExecution) (s : Sight) (st : ControlCommandStatus)
    → lookup w.registry id ≡ some st
    → st.command_id ≡ id
    → IsTransitioning id a (s.simulation_time + 30000) (await_transition w id a s)
unfolding await_transition
await_transition-IsTransitioning w id a s st h same =
    let late = record a { deadline = some (s.simulation_time + 30000) } in
    record {
      changes = (
        record st { execution = transitioning; updated_at = s.now },
        lookup-changed w.registry id (λ x. record x { execution = transitioning }) s.now st h same,
        refl,
      );
      followed = get-put w.active id late id ∙ if-true (some late) (get w.active id) (same_refl id);
    }

-- The handler has forced a phase, and the signal has still to reach it.
abbrev pub HasToReach : Command → Sight → ActiveExecution → Type 0
HasToReach cmd s a =
    (cmd.name ≡ "force_phase")
    × ((signal : Signal) × (s.signals (run_text a.node_id) ≡ some signal) × HasTarget signal)

-- Another command, or one whose signal is not there or has nothing to reach.
abbrev pub IsDone : Command → Sight → ActiveExecution → Type 0
IsDone cmd s a =
    (cmd.name ≢ "force_phase")
    ⊎ (s.signals (run_text a.node_id) ≡ none)
    ⊎ ((signal : Signal) × (s.signals (run_text a.node_id) ≡ some signal) × HasNoTarget signal)

is_awaited-cases :
    (cmd : Command) (s : Sight) (a : ActiveExecution)
    → ((is_awaited cmd s a ≡ true) × HasToReach cmd s a)
      ⊎ ((is_awaited cmd s a ≡ false) × IsDone cmd s a)
unfolding is_awaited signal_of
is_awaited-cases cmd s a = elim (Bool-cases (cmd.name == "force_phase")) [
  | inr other ↦ inr (rw other refl, inl (differs cmd.name "force_phase" other))
  | inl forces ↦ go (s.signals (run_text a.node_id)) forces refl
]
  where
    go :
        (o : Option Signal)
        → (cmd.name == "force_phase") ≡ true
        → s.signals (run_text a.node_id) ≡ o
        → ((is_awaited cmd s a ≡ true) × HasToReach cmd s a)
          ⊎ ((is_awaited cmd s a ≡ false) × IsDone cmd s a)
    go none forces e = inr (rw (forces, e) refl, inr (inl e))
    go (some signal) forces e = elim (is_pending_target-cases signal) [
      | inl (pending, target) ↦
          inl (
            rw (forces, e) pending,
            ((eq_iff cmd.name "force_phase").0 forces, (signal, e, target)),
          )
      | inr (free, lacks) ↦ inr (rw (forces, e) free, inr (inr (signal, e, lacks)))
    ]

-- A command that is followed and recorded, and whose handler has returned, is recorded as completed and
-- followed no more; but where it forces a phase and its signal has still a phase to reach, it is
-- recorded as in transition and followed, for at most 30 s of simulation.
pub on_command_success-cases :
    (uuid : Uuid) (w : Tracker) (cmd : Command) (s : Sight) (id : String) (a : ActiveExecution)
    (st : ControlCommandStatus)
    → id_of uuid cmd ≡ some id
    → get w.active id ≡ some a
    → lookup w.registry id ≡ some st
    → st.command_id ≡ id
    → (HasToReach cmd s a
        × IsTransitioning id a (s.simulation_time + 30000) (on_command_success uuid w cmd s))
      ⊎ (IsDone cmd s a × IsSettledAs id completed (on_command_success uuid w cmd s))
unfolding on_command_success succeed_named succeed
on_command_success-cases uuid w cmd s id a st named followed known same =
    let at = λ (o : Option String).
      (HasToReach cmd s a
        × IsTransitioning id a (s.simulation_time + 30000) (succeed_named w cmd s o))
      ⊎ (IsDone cmd s a × IsSettledAs id completed (succeed_named w cmd s o)) in
    subst at (sym named) (
      rw followed (elim (is_awaited-cases cmd s a) [
        | inl (awaited, reaches) ↦
            rw awaited (inl (reaches, await_transition-IsTransitioning w id a s st known same))
        | inr (free, done) ↦ rw free (inr (done, complete_applied-IsSettledAs w id s st known same))
      ]))

-- A command that is recorded is recorded as failed, and followed no more, when it has raised.
pub on_command_error-IsSettledAs :
    (uuid : Uuid) (w : Tracker) (cmd : Command) (e : ControlErrorBody) (now : ℕ) (id : String)
    (st : ControlCommandStatus)
    → id_of uuid cmd ≡ some id
    → lookup w.registry id ≡ some st
    → st.command_id ≡ id
    → IsSettledAs id failed (on_command_error uuid w cmd e now)
unfolding on_command_error fail_named fail
on_command_error-IsSettledAs uuid w cmd e now id st named known same =
    subst (λ o. IsSettledAs id failed (fail_named w e now o)) (sym named)
      (record {
        settled = (
          record (as_failed e st) { updated_at = now },
          lookup-changed w.registry id (as_failed e) now st known same,
          refl,
        );
        dropped = removed w.active id;
      })
