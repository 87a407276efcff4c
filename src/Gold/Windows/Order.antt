-- ===== src/Gold/Windows/Order.antt =====
-- de/gold_runtime/window_scheduler.py: the order in which `candidate_windows` gives the windows.
use smart_data_models.Prelude.{
  ℕ, zero, suc, ◌*◌, ◌+◌, ◌<◌, ◌≤◌, ◌⊎◌, true, false, Option, none, some, List, [], ◌∷◌, ◌≡◌, arith,
  if-split, take, All, Dict, length,
}
use smart_data_models.Gold.Windows.{
  StreamMaxima, runtime_watermark, WindowIdentity, Run, comes_first, enqueue_window, queue_order,
  scan_sizes, candidates_at, candidate_windows,
}
use smart_data_models.Gold.Windows.Candidates.{enqueue_window-All, All-take}

comes_first_trans :
    (u v w : WindowIdentity)
    → comes_first u v ≡ true
    → comes_first v w ≡ true
    → comes_first u w ≡ true
unfolding comes_first
comes_first_trans u v w h k = ground (arith, h, k)

comes_first_total : (v w : WindowIdentity) → comes_first v w ≡ false → comes_first w v ≡ true
unfolding comes_first
comes_first_total v w h = ground (arith, h)

-- A window before another one: its end is earlier, or the ends are equal and it is not the larger.
abbrev pub IsBefore : WindowIdentity → WindowIdentity → Type 0
IsBefore v w =
    (v.window_end < w.window_end)
    ⊎ ((v.window_end ≡ w.window_end) × (v.window_size ≤ w.window_size))

comes_first-IsBefore : (v w : WindowIdentity) → comes_first v w ≡ true → IsBefore v w
unfolding comes_first
comes_first-IsBefore v w h = ground (arith, h)

abbrev Before : WindowIdentity → List WindowIdentity → Type 0
Before w = All (λ (v : WindowIdentity). comes_first w v ≡ true)

abbrev IsSorted : List WindowIdentity → Type 0
IsSorted [] = Unit
IsSorted (w ∷ ws) = Before w ws × IsSorted ws

-- Each window comes before all that follow it.
abbrev pub IsQueued : List WindowIdentity → Type 0
IsQueued [] = Unit
IsQueued (w ∷ ws) = All (IsBefore w) ws × IsQueued ws

Before-All : (w : WindowIdentity) (ws : List WindowIdentity) → Before w ws → All (IsBefore w) ws
Before-All w [] h = tt
Before-All w (v ∷ vs) h = (comes_first-IsBefore w v h.0, Before-All w vs h.1)

sorted-IsQueued : (ws : List WindowIdentity) → IsSorted ws → IsQueued ws
sorted-IsQueued [] h = tt
sorted-IsQueued (w ∷ ws) h = (Before-All w ws h.0, sorted-IsQueued ws h.1)

Before-trans :
    (u v : WindowIdentity) (ws : List WindowIdentity)
    → comes_first u v ≡ true
    → Before v ws
    → Before u ws
Before-trans u v [] h k = tt
Before-trans u v (w ∷ ws) h k = (comes_first_trans u v w h k.0, Before-trans u v ws h k.1)

enqueue_window-IsSorted :
    (w : WindowIdentity) (vs : List WindowIdentity) → IsSorted vs → IsSorted (enqueue_window w vs)
unfolding enqueue_window
enqueue_window-IsSorted w [] h = (tt, tt)
enqueue_window-IsSorted w (v ∷ vs) h =
    if-split IsSorted (comes_first w v) (w ∷ v ∷ vs) (v ∷ enqueue_window w vs)
      (λ (first : comes_first w v ≡ true). ((first, Before-trans w v vs first h.0), h))
      (λ (second : comes_first w v ≡ false). (
        enqueue_window-All (λ (u : WindowIdentity). comes_first v u ≡ true) w vs
            (comes_first_total w v second) h.0,
        enqueue_window-IsSorted w vs h.1,
      ))

queue_order-IsSorted : (ws : List WindowIdentity) → IsSorted (queue_order ws)
unfolding queue_order
queue_order-IsSorted [] = tt
queue_order-IsSorted (w ∷ ws) = enqueue_window-IsSorted w (queue_order ws) (queue_order-IsSorted ws)

take-IsSorted : (n : ℕ) (ws : List WindowIdentity) → IsSorted ws → IsSorted (take n ws)
take-IsSorted zero ws h = tt
take-IsSorted (suc n) [] h = tt
take-IsSorted (suc n) (w ∷ ws) h =
    (All-take (λ (v : WindowIdentity). comes_first w v ≡ true) n ws h.0, take-IsSorted n ws h.1)

candidates_at-IsQueued :
    (r : Run) (sizes : List ℕ) (floors : Dict ℕ ℕ) (limit : ℕ) (mark : Option ℕ)
    → IsQueued (candidates_at r sizes floors limit mark)
unfolding candidates_at
candidates_at-IsQueued r sizes floors limit none = tt
candidates_at-IsQueued r sizes floors limit (some mark) =
    let found = scan_sizes r floors mark (limit * length sizes + limit) [] sizes in
    sorted-IsQueued (take limit (queue_order found))
      (take-IsSorted limit (queue_order found) (queue_order-IsSorted found))

-- The windows that the scheduler gives stand in the order of their ends, and at equal ends in the order
-- of their sizes.
pub candidate_windows-IsQueued :
    (r : Run) (m : StreamMaxima) (sizes : List ℕ) (floors : Dict ℕ ℕ) (limit : ℕ)
    → IsQueued (candidate_windows r m sizes floors limit)
unfolding candidate_windows
candidate_windows-IsQueued r m sizes floors limit =
    candidates_at-IsQueued r sizes floors limit (runtime_watermark m)
