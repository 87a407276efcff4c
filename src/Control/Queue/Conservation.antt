-- ===== src/Control/Queue/Conservation.antt =====
-- Every command that the queue of Visualize/runtime/command_queue.py accepts is taken out once, in the
-- order of acceptance.
use mathlib.Core.List.{append_assoc}
use smart_data_models.Prelude.{
  ℕ, zero, suc, ◌≤◌, String, Option, none, some, List, [], ◌∷◌, ◌++◌, ◌≡◌, refl, sym, ap, ◌∙◌, ◌⊎◌,
  true, arith, Bool-cases, inl, inr, length, length-append, get, string_key,
}
use smart_data_models.Control.Command.{Value}
use smart_data_models.Control.Queue.{
  Command, CommandQueue, has_room, enqueue, Callbacks, Done, Processed, Ended, returned, raised,
  report, told, finished, handled, process, Drained, ended, drain_items, drain,
}

-- The commands of a list of those taken out.
abbrev pub commands {ℓ} : {R : Type ℓ} → List (Done R) → List Command
commands [] = []
commands (d ∷ ds) = d.0 ∷ commands ds

module _ {ℓ κ} {S : Type ℓ} {R : Type κ} (calls : Callbacks S R) where
  told-command :
      (cmd : Command) (result : R) (from : S × Option String)
      → (told calls cmd result from).1.0 ≡ cmd
  unfolding told report
  told-command cmd result (s, none) = refl
  told-command cmd result (s, some e) = refl

  finished-command : (cmd : Command) (from : S × Ended R) → (finished calls cmd from).1.0 ≡ cmd
  unfolding finished report
  finished-command cmd (s, returned result) =
      told-command cmd result (calls.on_success s cmd result)
  finished-command cmd (s, raised e) = refl

  handled-command :
      (cmd : Command) (h : Option (S → List (String × Value) → S × Ended R))
      (from : S × Option String)
      → (handled calls cmd h from).1.0 ≡ cmd
  unfolding handled
  handled-command cmd h (s, some e) = refl
  handled-command cmd none (s, none) = finished-command cmd (s, raised "Unknown command")
  handled-command cmd (some handler) (s, none) = finished-command cmd (handler s cmd.kwargs)

  process-command : (s : S) (cmd : Command) → (process calls s cmd).1.0 ≡ cmd
  unfolding process
  process-command s cmd = handled-command cmd (get calls.handlers cmd.name) (calls.on_start s cmd)

  commands-ended :
      (items : List Command) (one : Processed S R) (rest : Drained calls)
      → commands rest.2 ++ rest.0 ≡ items
      → commands (ended calls items one rest).2 ++ (ended calls items one rest).0 ≡ one.1.0 ∷ items
  unfolding ended
  commands-ended items (s, one, none) (left, s', done, later) h =
      ap (λ (xs : List Command). one.0 ∷ xs) h
  commands-ended items (s, one, some e) rest h = refl

  pub commands-drain_items :
      (n : ℕ) (items : List Command) (s : S)
      → commands (drain_items calls n items s).2 ++ (drain_items calls n items s).0 ≡ items
  unfolding drain_items
  commands-drain_items zero items s = refl
  commands-drain_items (suc n) [] s = refl
  commands-drain_items (suc n) (cmd ∷ items) s =
      let one = process calls s cmd in
      commands-ended items one (drain_items calls n items one.0)
        (commands-drain_items n items one.0)
      ∙ ap (λ (c : Command). c ∷ items) (process-command s cmd)

  -- A call of the queue: an `enqueue`, or a `drain` of at most so many commands.
  pub data Use : Type 0 where
    give : Command → Use
    take_up_to : ℕ → Use

  -- The queue, the state, the commands accepted so far and those taken out, both in order.
  pub record Trace : Type ℓ where
    pub queue : CommandQueue
    pub state : S
    pub accepted : List Command
    pub taken : List Command

  abbrev given : Trace → Command → Option CommandQueue → Trace
  given t cmd none = t
  given t cmd (some q) = record t { queue = q; accepted = t.accepted ++ cmd ∷ [] }

  abbrev pub use_once : Trace → Use → Trace
  use_once t (give cmd) = given t cmd (enqueue t.queue cmd)
  use_once t (take_up_to n) =
      let (q, s, done, answer) = drain calls t.queue t.state n in
      record t { queue = q; state = s; taken = t.taken ++ commands done }

  abbrev pub use_all : Trace → List Use → Trace
  use_all t [] = t
  use_all t (u ∷ us) = use_all (use_once t u) us

  -- What was accepted is what was taken out, and after it what waits; and the queue is within its
  -- capacity, where that is not 0.
  abbrev pub IsConserved : Trace → Type 0
  IsConserved t =
      (t.accepted ≡ t.taken ++ t.queue.items)
      × ((t.queue.capacity ≡ 0) ⊎ (length t.queue.items ≤ t.queue.capacity))

  has_room-bound :
      (q : CommandQueue) (cmd : Command)
      → has_room q ≡ true
      → (q.capacity ≡ 0) ⊎ (length (q.items ++ cmd ∷ []) ≤ q.capacity)
  unfolding has_room
  has_room-bound q cmd h = ground (arith, h, length-append q.items (cmd ∷ []))

  given-IsConserved :
      (t : Trace) (cmd : Command) → IsConserved t → IsConserved (use_once t (give cmd))
  unfolding enqueue
  given-IsConserved t cmd h = elim (Bool-cases (has_room t.queue)) [
    | inl room ↦ rw room (
      ap (λ (xs : List Command). xs ++ cmd ∷ []) h.0
          ∙ append_assoc t.taken t.queue.items (cmd ∷ []),
      has_room-bound t.queue cmd room,
    )
    | inr full ↦ rw full h
  ]

  waiting-bound :
      (q : CommandQueue) (gone left : List Command)
      → gone ++ left ≡ q.items
      → (q.capacity ≡ 0) ⊎ (length q.items ≤ q.capacity)
      → (q.capacity ≡ 0) ⊎ (length left ≤ q.capacity)
  waiting-bound q gone left split (inl unbounded) = inl unbounded
  waiting-bound q gone left split (inr bound) =
      inr (ground (arith, ap length split, length-append gone left, bound))

  drained-IsConserved :
      (t : Trace) (n : ℕ) → IsConserved t → IsConserved (use_once t (take_up_to n))
  unfolding drain
  drained-IsConserved t n h =
      let after = drain_items calls n t.queue.items t.state in
      let split = commands-drain_items n t.queue.items t.state in
      (
        h.0
            ∙ ap (λ (xs : List Command). t.taken ++ xs) (sym split)
            ∙ sym (append_assoc t.taken (commands after.2) after.0),
        waiting-bound t.queue (commands after.2) after.0 split h.1,
      )

  -- Over any sequence of calls, whatever the handlers and the callbacks do or raise, the commands that
  -- were accepted are those taken out, in the same order, each once, followed by those that wait. The
  -- queue is never longer than its capacity, where that is not 0.
  pub use_all-IsConserved : (t : Trace) (us : List Use) → IsConserved t → IsConserved (use_all t us)
  use_all-IsConserved t [] h = h
  use_all-IsConserved t (give cmd ∷ us) h =
      use_all-IsConserved (use_once t (give cmd)) us (given-IsConserved t cmd h)
  use_all-IsConserved t (take_up_to n ∷ us) h =
      use_all-IsConserved (use_once t (take_up_to n)) us (drained-IsConserved t n h)
