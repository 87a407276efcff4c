-- ===== src/Control/Intake/Acceptance.antt =====
-- What a call of `accept_command` (Visualize/control/command_intake.py) leaves behind.
use smart_data_models.Prelude.{
  ℕ, String, false, Option, none, some, [], ◌∷◌, ◌++◌, ◌≡◌, refl, sym, ap, ◌∙◌, subst, inl, inr,
  ◌⊎◌, Bool-cases, string_key, get, put, get-put, same_refl, Distinct, put-Distinct, is_some,
  if-true, if-false,
}
use smart_data_models.Control.Command.{
  received, validated, queued, failed, Engine, ControlCommandEnvelope, ControlCommandStatus,
  runtime_running,
}
use smart_data_models.Control.Registry.{
  CommandRegistry, RegistryRecord, status_of, lookup, contains, put_status, update_found,
  update_status, updated, evict_if_needed,
}
use smart_data_models.Control.Registry.Eviction.{get-evict_if_needed}
use smart_data_models.Control.Queue.{Command, CommandQueue, has_room, enqueue}
use smart_data_models.Control.Naming.{
  Catalogue, CommandIntakeError, Named, named, unnamed, broken, legacy_enqueue_name,
}
use smart_data_models.Control.Intake.{
  Intake, Answer, initial_status, told, settle, submit, checked, accept_new, accept_found,
  accept_command, answered, validate_runtime,
}

pub lookup-update_found :
    (g : CommandRegistry) (st old : ControlCommandStatus) (t now : ℕ) (o : Option RegistryRecord)
    → status_of o ≡ some old
    → lookup (update_found g st t now o) st.command_id ≡ some st
unfolding update_found lookup
lookup-update_found g st old t now none h = cc h
lookup-update_found g st old t now (some rec) h = ap status_of (
    get-put g.records st.command_id (updated rec st t) st.command_id
    ∙ if-true (some (updated rec st t)) (get g.records st.command_id) (same_refl st.command_id))

lookup-told :
    (w : Intake) (st old : ControlCommandStatus) (now : ℕ)
    → lookup w.registry st.command_id ≡ some old
    → lookup (told w st now).registry st.command_id ≡ some st
unfolding told update_status lookup
lookup-told w st old now h =
    lookup-update_found w.registry st old now now (get w.registry.records st.command_id) h

is_some-absent : (o : Option RegistryRecord) → status_of o ≡ none → is_some o ≡ false
is_some-absent none h = refl
is_some-absent (some rec) h = cc h

-- A command that was not known is recorded as received, and no eviction drops it.
lookup-put_new :
    (g : CommandRegistry) (env : ControlCommandEnvelope) (now : ℕ)
    → Distinct g.records
    → lookup g env.command_id ≡ none
    → lookup (put_status g (initial_status env now) now now) env.command_id
      ≡ some (initial_status env now)
unfolding put_status lookup contains initial_status
lookup-put_new g env now u h =
    let id = env.command_id in
    let new : RegistryRecord = record { status = initial_status env now; terminal_at = none } in
    let grown : CommandRegistry = record g { records = put g.records id new } in
    let there =
      get-put g.records id new id ∙ if-true (some new) (get g.records id) (same_refl id) in
    let kept =
      get-evict_if_needed grown now id new (put-Distinct g.records id new u) there
        (inl (inl refl)) in
    ap status_of (
      ap (λ (k : CommandRegistry). get k.records id)
        (if-false g (evict_if_needed grown now) (is_some-absent (get g.records id) h))
      ∙ kept)

-- What an answer says of the registry and of the queue: an accepted command is recorded as queued
-- and stands at the end of the queue, once; a refused one is recorded as received or as failed, and
-- the queue is as it was.
abbrev pub IsSettled : Intake → String → Answer → Type 0
IsSettled w id (w', some st, none) =
    (lookup w'.registry id ≡ some st)
    × (st.lifecycle ≡ queued)
    × ((cmd : Command) × (cmd.command_id ≡ some id)
        × (w'.commands.items ≡ w.commands.items ++ cmd ∷ []))
IsSettled w id (w', none, some e) =
    (w'.commands ≡ w.commands)
    × ((st : ControlCommandStatus) × (lookup w'.registry id ≡ some st)
        × ((st.lifecycle ≡ received) ⊎ (st.lifecycle ≡ failed)))
IsSettled w id _ = ⊥

settle-IsSettled :
    (w0 w : Intake) (old st : ControlCommandStatus) (now : ℕ) (cmd : Command)
    → w.commands ≡ w0.commands
    → cmd.command_id ≡ some st.command_id
    → lookup w.registry st.command_id ≡ some old
    → IsSettled w0 st.command_id (settle w st now (enqueue w.commands cmd))
unfolding settle enqueue
settle-IsSettled w0 w old st now cmd same id h = elim (Bool-cases (has_room w.commands)) [
  | inl room ↦ rw room (
    lookup-told (record w { commands = record w.commands { items = w.commands.items ++ cmd ∷ [] } })
        _ old now h,
    refl,
    (cmd, id, unfold told in ap (λ (q : CommandQueue). q.items ++ cmd ∷ []) same),
  )
  | inr full ↦ rw full (unfold told in same, (_, lookup-told w _ old now h, inr refl))
]

submit-IsSettled :
    (w0 w : Intake) (engine : Option Engine) (env : ControlCommandEnvelope) (now : ℕ) (n : Named)
    → w.commands ≡ w0.commands
    → lookup w.registry env.command_id ≡ some (initial_status env now)
    → IsSettled w0 env.command_id (submit w engine env now (initial_status env now) n)
unfolding submit initial_status
submit-IsSettled w0 w engine env now (unnamed e) same h = (same, (_, h, inl refl))
submit-IsSettled w0 w engine env now (broken e) same h =
    (unfold told in same, (_, lookup-told w _ (initial_status env now) now h, inr refl))
submit-IsSettled w0 w engine env now (named name kwargs) same h =
    let valid = record (initial_status env now) {
      lifecycle = validated;
      accepted_run_id = runtime_running engine;
      updated_at = now;
    } in
    settle-IsSettled w0 (told w valid now) valid valid now
      (record { name = name; kwargs = kwargs; command_id = some env.command_id })
      (unfold told in same) refl (lookup-told w valid (initial_status env now) now h)

checked-IsSettled :
    (w0 w : Intake) (engine : Option Engine) (cfg : Catalogue) (env : ControlCommandEnvelope)
    (now : ℕ) (e : Option CommandIntakeError)
    → w.commands ≡ w0.commands
    → lookup w.registry env.command_id ≡ some (initial_status env now)
    → IsSettled w0 env.command_id (checked w engine cfg env now e)
unfolding checked
checked-IsSettled w0 w engine cfg env now none same h =
    submit-IsSettled w0 w engine env now (legacy_enqueue_name cfg env) same h
checked-IsSettled w0 w engine cfg env now (some e) same h =
    (same, (initial_status env now, h, inl (unfold initial_status in refl)))

-- A command whose id is new to the registry is settled, whatever the engine, the configuration and
-- the clock are: accepted, recorded as queued and put at the end of the queue once; or refused,
-- recorded as received or failed, with the queue as it was.
pub accept_command-IsSettled :
    (w : Intake) (engine : Option Engine) (cfg : Catalogue) (env : ControlCommandEnvelope) (now : ℕ)
    → Distinct w.registry.records
    → lookup w.registry env.command_id ≡ none
    → IsSettled w env.command_id (accept_command w engine cfg env now)
unfolding accept_command accept_new accept_found
accept_command-IsSettled w engine cfg env now u h =
    subst
      (λ (o : Option ControlCommandStatus).
        IsSettled w env.command_id (accept_found w engine cfg env now o))
      (sym h)
      (checked-IsSettled w
        (record w { registry = put_status w.registry (initial_status env now) now now }) engine cfg
        env now (validate_runtime engine env now) refl (lookup-put_new w.registry env now u h))

known_after :
    (w : Intake) (id : String) (a : Answer)
    → IsSettled w id a
    → (st : ControlCommandStatus) × (lookup a.0.registry id ≡ some st)
known_after w id (w', some st, none) h = (st, h.0)
known_after w id (w', none, some e) h = (h.1.0, h.1.1)
known_after w id (w', none, none) h = absurd h
known_after w id (w', some st, some e) h = absurd h

-- A second request under the id of a first one that was new changes nothing and is answered with the
-- recorded status, whatever the first answer was: also where the first was refused.
pub accept_command-again :
    (w : Intake) (engine engine' : Option Engine) (cfg : Catalogue)
    (env env' : ControlCommandEnvelope) (now now' : ℕ)
    → Distinct w.registry.records
    → lookup w.registry env.command_id ≡ none
    → env'.command_id ≡ env.command_id
    → let after = (accept_command w engine cfg env now).0 in
      (st : ControlCommandStatus) × (lookup after.registry env.command_id ≡ some st)
      × (accept_command after engine' cfg env' now' ≡ answered after st)
unfolding accept_command accept_found
accept_command-again w engine engine' cfg env env' now now' u h same =
    let first = accept_command w engine cfg env now in
    let (st, there) =
      known_after w env.command_id first (accept_command-IsSettled w engine cfg env now u h) in
    (
      st,
      there,
      ap (accept_found first.0 engine' cfg env' now') (ap (lookup first.0.registry) same ∙ there),
    )
