-- ===== src/Gold/Windows/State.antt =====
-- de/gold_runtime/window_scheduler.py: the states of a window and the rows that come late.
use smart_data_models.Prelude.{
  ℕ, Bool, true, false, Option, none, some, List, [], ◌∷◌, ◌≡◌, refl, ◌⊎◌, inl, inr, leb,
  if◌then◌else◌,
}

pub data WindowState : Type 0 where
  opened eligible processing closed revised : WindowState

unfoldable pub is_allowed : WindowState → WindowState → Bool
is_allowed opened opened = true
is_allowed opened eligible = true
is_allowed eligible eligible = true
is_allowed eligible processing = true
is_allowed processing processing = true
is_allowed processing closed = true
is_allowed processing eligible = true
is_allowed closed revised = true
is_allowed _ _ = false

-- `none` is the WindowStateError.
unfoldable pub assert_transition : WindowState → WindowState → Option WindowState
unfolding is_allowed
assert_transition current new = if is_allowed current new then some new else none

-- A sequence of transitions, which stops at the first illegal one.
abbrev pub transitions : Option WindowState → List WindowState → Option WindowState
transitions none news = none
transitions (some state) [] = some state
transitions (some state) (new ∷ news) = transitions (assert_transition state new) news

from_revised : (new : WindowState) → assert_transition revised new ≡ none
unfolding assert_transition
from_revised opened = refl
from_revised eligible = refl
from_revised processing = refl
from_revised closed = refl
from_revised revised = refl

from_closed :
    (new : WindowState)
    → (assert_transition closed new ≡ none) ⊎ (assert_transition closed new ≡ some revised)
unfolding assert_transition
from_closed opened = inl refl
from_closed eligible = inl refl
from_closed processing = inl refl
from_closed closed = inl refl
from_closed revised = inr refl

revised-transitions :
    (news : List WindowState) (last : WindowState)
    → transitions (some revised) news ≡ some last
    → last ≡ revised
revised-transitions [] last h = cc h
revised-transitions (new ∷ news) last h = absurd (cc (rw (from_revised new, transitions) at h))

-- A window that is closed never reopens: after any sequence of legal transitions it is closed or
-- revised.
pub transitions-closed :
    (news : List WindowState) (last : WindowState)
    → transitions (some closed) news ≡ some last
    → (last ≡ closed) ⊎ (last ≡ revised)
transitions-closed [] last h = inl (cc h)
transitions-closed (new ∷ news) last h = elim (from_closed new) [
  | inl illegal ↦ absurd (cc (rw (illegal, transitions) at h))
  | inr once ↦ inr (revised-transitions news last (rw (once, transitions) at h))
]

pub data LateClass : Type 0 where
  on_time late_before_close late_after_close conflict : LateClass

abbrev pub is_closed : WindowState → Bool
is_closed closed = true
is_closed revised = true
is_closed opened = false
is_closed eligible = false
is_closed processing = false

unfoldable pub classify_late_row : ℕ → ℕ → WindowState → Bool → Bool → LateClass
classify_late_row time window_end state source_changed identity_conflict =
    if identity_conflict
    then conflict
    else if leb window_end time
    then on_time
    else if is_closed state
    then (if source_changed then late_after_close else on_time)
    else late_before_close
