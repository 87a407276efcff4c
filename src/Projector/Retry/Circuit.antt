-- ===== src/Projector/Retry/Circuit.antt =====
-- The circuit breaker of Visualize/integration/projector/retry.py over any sequence of calls.
use smart_data_models.Prelude.{
  ℕ, zero, suc, ◌+◌, ◌*◌, ◌≤◌, ◌<◌, String, Bool, true, Option, none, some, List, [], ◌∷◌, ◌≡◌,
  refl, arith, ltb, leb, if◌then◌else◌, ◌⊎◌, min, length, Bool-cases, inl, inr, ◌/◌,
}
use native.Mathlib.Nat.{add-zero}
use smart_data_models.Projector.Retry.{
  closed, open', max_attempts, circuit_open_us, retry_delay_us, jitter_us, jitter_delta,
  RetryContext, RetryManager, start_or_continue, fail_transient, record_failure,
  circuit_allows_attempt, record_success, half_open_failed,
}

-- The calls of the class, with the clock's reading and the draw at each.
pub data Call : Type 0 where
  start : List String → Call
  fail : Bool → String → Option ℕ → ℕ → ℕ → Call
  ask : Option ℕ → ℕ → Call
  succeed : Call
  probe_failed : Option ℕ → ℕ → Call

unfoldable pub step : RetryManager → Call → RetryManager
step m (start ids) = start_or_continue m ids
step m (fail retryable error now clock draw) = (record_failure m retryable error now clock draw).0
step m (ask now clock) = (circuit_allows_attempt m now clock).0
step m succeed = record_success m
step m (probe_failed now clock) = half_open_failed m now clock

unfoldable pub run : RetryManager → List Call → RetryManager
unfolding step
run m [] = m
run m (c ∷ cs) = run (step m c) cs

-- While the circuit is closed fewer than `max_attempts` failures are counted.
abbrev pub IsValidPending : Option RetryContext → Type 0
IsValidPending none = Unit
IsValidPending (some ctx) = ctx.circuit_state ≡ closed → ctx.attempt < max_attempts

step-IsValidPending :
    (m : RetryManager) (c : Call) → IsValidPending m.pending → IsValidPending (step m c).pending
unfolding step start_or_continue record_failure circuit_allows_attempt record_success
    half_open_failed
step-IsValidPending m c h = ground arith

-- After any sequence of calls on a manager of which this holds, a pending batch whose circuit is closed has fewer
-- than `max_attempts` counted failures.
pub run-IsValidPending :
    (m : RetryManager) (cs : List Call)
    → IsValidPending m.pending
    → IsValidPending (run m cs).pending
unfolding run
run-IsValidPending m [] h = h
run-IsValidPending m (c ∷ cs) h = run-IsValidPending (step m c) cs (step-IsValidPending m c h)

delay_fifth : (attempt : ℕ) → retry_delay_us attempt ≡ 5 * (retry_delay_us attempt / 5)
unfolding retry_delay_us
delay_fifth zero = refl
delay_fifth (suc zero) = refl
delay_fifth (suc (suc zero)) = refl
delay_fifth (suc (suc (suc zero))) = refl
delay_fifth _ = refl

jitter_bounds :
    (base draw : ℕ)
    → base ≡ 5 * (base / 5)
    → draw ≤ 2 * jitter_delta base
    → (4 * base ≤ 5 * jitter_us base draw) × (5 * jitter_us base draw ≤ 6 * base)
unfolding jitter_us
jitter_bounds base draw fifth h = ground arith

-- The advice at the count of failures reached.
abbrev pub IsAdvice : RetryContext → ℕ → RetryContext × Option ℕ → Type 0
IsAdvice ctx now (ctx', none) =
    (max_attempts ≤ ctx'.attempt)
    × (ctx'.circuit_state ≡ open')
    × (ctx'.circuit_open_until ≡ now + circuit_open_us)
IsAdvice ctx now (ctx', some sleep) =
    (ctx'.attempt < max_attempts)
    × (ctx'.circuit_state ≡ ctx.circuit_state)
    × (4 * retry_delay_us ctx'.attempt ≤ 5 * sleep)
    × (5 * sleep ≤ 6 * retry_delay_us ctx'.attempt)
    × (ctx'.next_retry_at ≡ now + sleep)

-- A retryable failure, with the draw in its range: while the count stays below `max_attempts` a
-- sleep between 80 and 120 percent of the table's delay is advised and the circuit stays as it is,
-- and from there on none is advised and the circuit opens for `circuit_open_us`.
pub fail_transient-IsAdvice :
    (ctx : RetryContext) (now draw : ℕ)
    → draw ≤ 2 * jitter_delta (retry_delay_us (min (ctx.attempt + 1) 4))
    → IsAdvice ctx now (fail_transient ctx now draw)
unfolding fail_transient
fail_transient-IsAdvice ctx now draw h =
    let a = ctx.attempt + 1 in
    elim (Bool-cases (leb max_attempts a)) [
      | inl last ↦ rw last (ground arith, refl, refl)
      | inr early ↦
          let same : min a 4 ≡ a = ground arith in
          let (low, high) = jitter_bounds (retry_delay_us a) draw (delay_fifth a) (rw same at h) in
          rw (early, same) (ground arith, refl, low, high, refl)
    ]

abbrev pub opens_at : ℕ → List (ℕ × ℕ) → ℕ
opens_at last [] = last
opens_at last ((clock, draw) ∷ fs) = opens_at clock fs

-- Retryable failures in a row, each with the clock's reading and a draw.
unfoldable pub fail_all : RetryManager → List (ℕ × ℕ) → RetryManager
unfolding record_failure
fail_all m [] = m
fail_all m ((clock, draw) ∷ fs) = fail_all (record_failure m true "" none clock draw).0 fs

-- The circuit after `k` further failures of a batch with `n` counted ones, the last at `last`.
abbrev CircuitAfter : ℕ → ℕ → RetryContext → Type 0
CircuitAfter n last ctx =
    (ctx.attempt ≡ n)
    × ((n < max_attempts × (ctx.circuit_state ≡ closed))
        ⊎ ((max_attempts ≤ n)
            × (ctx.circuit_state ≡ open')
            × (ctx.circuit_open_until ≡ last + circuit_open_us)))

abbrev PendingAfter : ℕ → ℕ → Option RetryContext → Type 0
PendingAfter n last none = ⊥
PendingAfter n last (some ctx) = CircuitAfter n last ctx

fail-PendingAfter :
    (m : RetryManager) (n last clock draw : ℕ)
    → PendingAfter n last m.pending
    → PendingAfter (n + 1) clock (record_failure m true "" none clock draw).0.pending
unfolding record_failure
fail-PendingAfter m n last clock draw h = ground arith

fail_all-PendingAfter :
    (m : RetryManager) (n last : ℕ) (fs : List (ℕ × ℕ))
    → PendingAfter n last m.pending
    → PendingAfter (n + length fs) (opens_at last fs) (fail_all m fs).pending
unfolding fail_all
fail_all-PendingAfter m n last [] h = rw add-zero h
fail_all-PendingAfter m n last ((clock, draw) ∷ fs) h =
    let e : n + suc (length fs) ≡ n + 1 + length fs = omega arith in
    rw e (
      fail_all-PendingAfter (record_failure m true "" none clock draw).0 (n + 1) clock fs
        (fail-PendingAfter m n last clock draw h))

start-PendingAfter :
    (m : RetryManager) (ids : List String)
    → m.pending ≡ none
    → PendingAfter 0 0 (start_or_continue m ids).pending
unfolding start_or_continue
start-PendingAfter m ids idle = rw idle (refl, inl (omega arith, refl))

allows-PendingAfter :
    (m : RetryManager) (n last now : ℕ)
    → PendingAfter n last m.pending
    → (circuit_allows_attempt m none now).1
      ≡ (if ltb n max_attempts then true else leb (last + circuit_open_us) now)
unfolding circuit_allows_attempt
allows-PendingAfter m n last now h = ground arith

-- A batch that starts on an idle manager and fails `k` times in a row with retryable errors: while
-- `k < max_attempts` the next attempt is allowed at any time; from then on it is allowed only once
-- the clock has passed the last failure by `circuit_open_us`.
pub circuit_allows_attempt-fail_all :
    (m : RetryManager) (ids : List String) (clock draw : ℕ) (fs : List (ℕ × ℕ)) (now : ℕ)
    → m.pending ≡ none
    → (circuit_allows_attempt (fail_all (start_or_continue m ids) ((clock, draw) ∷ fs)) none now).1
      ≡ (if ltb (length fs + 1) max_attempts
          then true
          else leb (opens_at clock fs + circuit_open_us) now)
circuit_allows_attempt-fail_all m ids clock draw fs now idle =
    let fs' : List (ℕ × ℕ) = (clock, draw) ∷ fs in
    let begun = start_or_continue m ids in
    rw
      (allows-PendingAfter (fail_all begun fs') (0 + length fs') (opens_at clock fs) now
        (fail_all-PendingAfter begun 0 0 fs' (start-PendingAfter m ids idle)))
      (ground arith)
