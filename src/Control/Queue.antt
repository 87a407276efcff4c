-- ===== src/Control/Queue.antt =====
-- Visualize/runtime/command_queue.py: `CommandQueue`. The handlers and the callbacks of `drain` are
-- parameters that act on a state of their own. Waiting for a result is left out: it is a wait of the
-- calling thread on the event that `drain` sets.
pub mod Conservation
pub mod Draining
use smart_data_models.Prelude.{
  ℕ, zero, suc, ◌+◌, String, Bool, Option, none, some, List, [], ◌∷◌, ◌++◌, ◌||◌, ltb, eqb,
  if◌then◌else◌, length, Dict, get, string_key,
}
use smart_data_models.Control.Command.{Value}

pub record Command : Type 0 where
  pub name : String
  pub kwargs : List (String × Value)
  pub command_id : Option String

pub record CommandQueue : Type 0 where
  pub capacity : ℕ
  pub items : List Command

-- `queue.Queue(maxsize=0)` has no bound.
unfoldable pub has_room : CommandQueue → Bool
has_room q = eqb q.capacity 0 || ltb (length q.items) q.capacity

-- `none` is the QueueFullError.
unfoldable pub enqueue : CommandQueue → Command → Option CommandQueue
unfolding has_room
enqueue q cmd = if has_room q then some (record q { items = q.items ++ cmd ∷ [] }) else none

-- What a call ends with: a value, or an exception.
pub data Ended {ℓ} (R : Type ℓ) : Type ℓ where
  returned : R → Ended R
  raised : String → Ended R

-- The callbacks; `some e` is an exception. That of `on_success` is told to `on_error`, like one of the
-- handler; those of `on_start` and `on_error` leave `drain`.
pub record Callbacks {ℓ κ} (S : Type ℓ) (R : Type κ) : Type (ℓ ⊔ κ) where
  pub handlers : Dict String (S → List (String × Value) → S × Ended R)
  pub on_start : S → Command → S × Option String
  pub on_success : S → Command → R → S × Option String
  pub on_error : S → Command → String → S × Option String

-- A command that was taken out, with what `result` and `error` hold.
abbrev pub Done {ℓ} : Type ℓ → Type ℓ
Done R = Command × Option R × Option String

-- The state, the command, and the exception that leaves `drain`.
abbrev pub Processed {ℓ κ} : Type ℓ → Type κ → Type (ℓ ⊔ κ)
Processed S R = S × Done R × Option String

module _ {ℓ κ} {S : Type ℓ} {R : Type κ} (calls : Callbacks S R) where
  unfoldable pub report : Command → Option R → String → S × Option String → Processed S R
  report cmd result e (s, left) = (s, (cmd, result, some e), left)

  unfoldable pub told : Command → R → S × Option String → Processed S R
  unfolding report
  told cmd result (s, none) = (s, (cmd, some result, none), none)
  told cmd result (s, some e) = report cmd (some result) e (calls.on_error s cmd e)

  unfoldable pub finished : Command → S × Ended R → Processed S R
  unfolding told report
  finished cmd (s, returned result) = told cmd result (calls.on_success s cmd result)
  finished cmd (s, raised e) = report cmd none e (calls.on_error s cmd e)

  unfoldable pub handled :
      Command → Option (S → List (String × Value) → S × Ended R) → S × Option String → Processed S R
  unfolding finished
  handled cmd handler (s, some e) = (s, (cmd, none, none), some e)
  handled cmd none (s, none) = finished cmd (s, raised "Unknown command")
  handled cmd (some handler) (s, none) = finished cmd (handler s cmd.kwargs)

  unfoldable pub process : S → Command → Processed S R
  unfolding handled get
  process s cmd = handled cmd (get calls.handlers cmd.name) (calls.on_start s cmd)

  -- What `drain` leaves, the state, the commands that were taken out, in order, and the exception that
  -- ended the loop at the last one of them.
  abbrev pub Drained : Type (ℓ ⊔ κ)
  Drained = List Command × S × List (Done R) × Option String

  -- The loop after a command, given what its further rounds would do with the others.
  unfoldable pub ended : List Command → Processed S R → Drained → Drained
  ended items (s, one, none) (left, s', done, later) = (left, s', one ∷ done, later)
  ended items (s, one, some e) rest = (items, s, one ∷ [], some e)

  -- At most `max_n` commands.
  unfoldable pub drain_items : ℕ → List Command → S → Drained
  unfolding process ended
  drain_items zero items s = (items, s, [], none)
  drain_items (suc n) [] s = ([], s, [], none)
  drain_items (suc n) (cmd ∷ items) s =
      let one = process s cmd in ended items one (drain_items n items one.0)

  -- The number of processed commands, or the exception.
  abbrev pub drain_answer : List (Done R) → Option String → Ended ℕ
  drain_answer done none = returned (length done)
  drain_answer done (some e) = raised e

  unfoldable pub drain : CommandQueue → S → ℕ → CommandQueue × S × List (Done R) × Ended ℕ
  unfolding drain_items
  drain q s max_n =
      let (left, s', done, error) = drain_items max_n q.items s in
      (record q { items = left }, s', done, drain_answer done error)
