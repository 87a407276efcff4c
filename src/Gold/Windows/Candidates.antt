-- ===== src/Gold/Windows/Candidates.antt =====
-- de/gold_runtime/window_scheduler.py: which windows `candidate_windows` gives.
use native.Mathlib.Nat.{lt-div-mul-add}
use smart_data_models.Prelude.{
  ℕ, zero, suc, ◌+◌, ◌*◌, ◌/◌, ◌≤◌, ◌<◌, true, false, not, Option, some, List, [], ◌∷◌, ◌++◌, ◌≡◌,
  refl, sym, subst, arith, leb, ltb, if◌then◌else◌, if-elim, if-split, length, take, length-take-le,
  Dict, All, All-append,
}
use smart_data_models.Gold.Windows.{
  StreamMaxima, runtime_watermark, is_eligible, WindowIdentity, window_at, make_window_identity,
  window_start_for, Run, scan, rounds, floor_of, scan_size, scan_sizes, enqueue_window, queue_order,
  candidates_at, candidate_windows, comes_first,
}

-- A window past the floor of its size and before the watermark, at a multiple of its size.
abbrev pub IsReady : Dict ℕ ℕ → ℕ → WindowIdentity → Type 0
IsReady floors mark w =
    (floor_of floors w.window_size < w.window_end)
    × (w.window_end < mark)
    × (w.window_end ≡ w.window_start + w.window_size)
    × ((k : ℕ) × (w.window_start ≡ k * w.window_size))

next_start : (k size : ℕ) → suc k * size ≡ k * size + size
next_start k size = ground arith

window-IsReady :
    (r : Run) (floors : Dict ℕ ℕ) (size mark k : ℕ)
    → leb (window_at r size (k * size)).window_end (floor_of floors size) ≡ false
    → not (is_eligible (window_at r size (k * size)).window_end (some mark)) ≡ false
    → IsReady floors mark (window_at r size (k * size))
unfolding window_at make_window_identity is_eligible
window-IsReady r floors size mark k past early =
    (ground (arith, past), ground (arith, early), refl, (k, refl))

scan-IsReady :
    (fuel : ℕ) (r : Run) (floors : Dict ℕ ℕ) (size mark most count k : ℕ)
    → All (IsReady floors mark) (scan fuel r size (floor_of floors size) mark most count (k * size))
unfolding scan
scan-IsReady zero r floors size mark most count k = tt
scan-IsReady (suc fuel) r floors size mark most count k =
    let floor = floor_of floors size in
    let start = k * size in
    let again : (n : ℕ)
        → All (IsReady floors mark) (scan fuel r size floor mark most n (start + size)) =
      λ (n : ℕ).
        subst (λ (from : ℕ). All (IsReady floors mark) (scan fuel r size floor mark most n from))
          (next_start k size) (scan-IsReady fuel r floors size mark most n (suc k)) in
    let window = window_at r size start in
    let more = scan fuel r size floor mark most (count + 1) (start + size) in
    let on = if ltb most (count + 1) then [] else more in
    if-split (All (IsReady floors mark)) (leb window.window_end floor)
      (scan fuel r size floor mark most count (start + size))
      (if not (is_eligible window.window_end (some mark)) then [] else window ∷ on)
      (λ (_ : leb window.window_end floor ≡ true). again count)
      (λ (past : leb window.window_end floor ≡ false).
        if-split (All (IsReady floors mark)) (not (is_eligible window.window_end (some mark))) []
          (window ∷ on) (λ (_ : not (is_eligible window.window_end (some mark)) ≡ true). tt)
          (λ (early : not (is_eligible window.window_end (some mark)) ≡ false). (
            window-IsReady r floors size mark k past early,
            if-elim (All (IsReady floors mark)) (ltb most (count + 1)) [] more tt
                (again (count + 1)),
          )))

pub All-take : {A : Type 0} (P : A → Type 0) (n : ℕ) (xs : List A) → All P xs → All P (take n xs)
All-take P zero xs h = tt
All-take P (suc n) [] h = tt
All-take P (suc n) (x ∷ xs) h = (h.0, All-take P n xs h.1)

pub enqueue_window-All :
    (P : WindowIdentity → Type 0) (w : WindowIdentity) (vs : List WindowIdentity)
    → P w
    → All P vs
    → All P (enqueue_window w vs)
unfolding enqueue_window
enqueue_window-All P w [] h k = (h, tt)
enqueue_window-All P w (v ∷ vs) h k =
    if-elim (All P) (comes_first w v) (w ∷ v ∷ vs) (v ∷ enqueue_window w vs) (h, k)
      (k.0, enqueue_window-All P w vs h k.1)

queue_order-All :
    (P : WindowIdentity → Type 0) (ws : List WindowIdentity) → All P ws → All P (queue_order ws)
unfolding queue_order
queue_order-All P [] h = tt
queue_order-All P (w ∷ ws) h =
    enqueue_window-All P w (queue_order ws) h.0 (queue_order-All P ws h.1)

scan_sizes-IsReady :
    (r : Run) (floors : Dict ℕ ℕ) (mark most : ℕ) (found : List WindowIdentity) (sizes : List ℕ)
    → All (IsReady floors mark) found
    → All (IsReady floors mark) (scan_sizes r floors mark most found sizes)
unfolding scan_sizes scan_size window_start_for
scan_sizes-IsReady r floors mark most found [] h = h
scan_sizes-IsReady r floors mark most found (size ∷ sizes) h =
    scan_sizes-IsReady r floors mark most
      (found ++ scan_size r floors mark most (length found) size) sizes
      (All-append (IsReady floors mark) found (scan_size r floors mark most (length found) size) h (
        scan-IsReady (rounds size mark) r floors size mark most (length found)
          (floor_of floors size / size)))

-- Each of at most `limit` windows that the scheduler gives ends strictly before the watermark of the
-- run and strictly after the last closed window of its size, and lies at a multiple of its size.
pub candidate_windows-IsReady :
    (r : Run) (m : StreamMaxima) (sizes : List ℕ) (floors : Dict ℕ ℕ) (limit mark : ℕ)
    → runtime_watermark m ≡ some mark
    → All (IsReady floors mark) (candidate_windows r m sizes floors limit)
      × (length (candidate_windows r m sizes floors limit) ≤ limit)
unfolding candidate_windows
candidate_windows-IsReady r m sizes floors limit mark h =
    subst
      (λ (o : Option ℕ).
        All (IsReady floors mark) (candidates_at r sizes floors limit o)
        × (length (candidates_at r sizes floors limit o) ≤ limit))
      (sym h)
      (let found = scan_sizes r floors mark (limit * length sizes + limit) [] sizes in
        unfold candidates_at in
        (
          All-take (IsReady floors mark) limit (queue_order found) (
              queue_order-All (IsReady floors mark) found
                (scan_sizes-IsReady r floors mark (limit * length sizes + limit) [] sizes tt)),
          length-take-le limit (queue_order found),
        ))

-- Past the watermark a scan gives nothing, and so more rounds change nothing.
scan-past :
    (fuel : ℕ) (r : Run) (size floor mark most count start : ℕ)
    → mark ≤ start
    → scan fuel r size floor mark most count start ≡ []
unfolding scan window_at make_window_identity is_eligible
scan-past zero r size floor mark most count start h = refl
scan-past (suc fuel) r size floor mark most count start h =
    ground (arith, scan-past fuel r size floor mark most count (start + size))

scan-longer :
    (total fuel : ℕ) (r : Run) (size floor mark most count start : ℕ)
    → fuel ≤ total
    → mark ≤ start + fuel * size
    → scan total r size floor mark most count start ≡ scan fuel r size floor mark most count start
unfolding scan
scan-longer total zero r size floor mark most count start le h =
    scan-past total r size floor mark most count start (ground (arith, h))
scan-longer zero (suc fuel) r size floor mark most count start le h = absurd (omega (arith, le))
scan-longer (suc total) (suc fuel) r size floor mark most count start le h =
    let le' : fuel ≤ total = omega (arith, le) in
    let far : mark ≤ start + size + fuel * size = ground (arith, h) in
    rw
      (
        scan-longer total fuel r size floor mark most count (start + size) le' far,
        scan-longer total fuel r size floor mark most (count + 1) (start + size) le' far,
      )
      refl

-- The rounds of a scan are enough: with any more of them it gives the same windows, so that the loop
-- of the source ends with these.
pub scan-rounds :
    (total : ℕ) (r : Run) (size floor mark most count : ℕ)
    → 0 < size
    → rounds size mark ≤ total
    → scan total r size floor mark most count (window_start_for floor size)
      ≡ scan (rounds size mark) r size floor mark most count (window_start_for floor size)
unfolding rounds
scan-rounds total r size floor mark most count pos le =
    scan-longer total (mark / size + 2) r size floor mark most count (window_start_for floor size)
      le (ground (arith, lt-div-mul-add {a = mark} {b = size} pos))
