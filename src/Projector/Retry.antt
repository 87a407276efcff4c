-- ===== src/Projector/Retry.antt =====
-- Visualize/integration/projector/retry.py: the retry authority of the batch upsert and its circuit
-- breaker. Times are whole microseconds. The clock's reading and the draw of the random source are
-- arguments.
pub mod Circuit
use smart_data_models.Prelude.{
  ℕ, zero, suc, ◌+◌, ◌-◌, ◌*◌, ◌/◌, min, String, Bool, true, false, not, ◌&&◌, ◌||◌, Option, none,
  some, List, [], ◌∷◌, ◌++◌, leb, eqb, if◌then◌else◌, is_some, keep, string_key, ◌==◌,
}

pub data CircuitState : Type 0 where
  closed open' half_open : CircuitState

abbrev pub max_attempts : ℕ
max_attempts = 5

abbrev pub circuit_open_us : ℕ
circuit_open_us = 30000000

-- `RETRY_DELAYS_MS[min(attempt, 4)]`, in microseconds
unfoldable pub retry_delay_us : ℕ → ℕ
retry_delay_us zero = 0
retry_delay_us (suc zero) = 250000
retry_delay_us (suc (suc zero)) = 500000
retry_delay_us (suc (suc (suc zero))) = 1000000
retry_delay_us _ = 2000000

-- The spread `base * JITTER_FRAC`, with JITTER_FRAC = 0.20.
abbrev pub jitter_delta : ℕ → ℕ
jitter_delta base = base / 5

-- `draw` is the uniform sample, measured from the low end `base - delta`.
unfoldable pub jitter_us : ℕ → ℕ → ℕ
jitter_us base draw = if leb base 0 then 0 else base - jitter_delta base + draw

pub record RetryContext : Type 0 where
  pub entity_ids : List String
  pub attempt : ℕ
  pub next_retry_at : ℕ
  pub circuit_state : CircuitState
  pub circuit_open_until : ℕ
  pub last_error : String

pub record RetryManager : Type 0 where
  pub pending : Option RetryContext
  pub transient_total : ℕ
  pub permanent_total : ℕ

unfoldable pub init : RetryManager
init = record { pending = none; transient_total = 0; permanent_total = 0 }

-- `now or time.monotonic()`: an explicit 0 is replaced by the clock too
unfoldable pub now_or : Option ℕ → ℕ → ℕ
now_or none clock = clock
now_or (some zero) clock = clock
now_or (some (suc t)) clock = suc t

unfoldable pub has_pending : RetryManager → Bool
has_pending m = is_some m.pending

unfoldable pub is_degraded : CircuitState → Bool
is_degraded closed = false
is_degraded open' = true
is_degraded half_open = true

unfoldable pub degraded : RetryManager → Bool
unfolding is_degraded
degraded m = elim m.pending [ none ↦ false | some ctx ↦ is_degraded ctx.circuit_state ]

unfoldable pub clear : RetryManager → RetryManager
clear m = record m { pending = none }

unfoldable pub fresh : List String → RetryContext
fresh ids = record {
  entity_ids = ids;
  attempt = 0;
  next_retry_at = 0;
  circuit_state = closed;
  circuit_open_until = 0;
  last_error = "";
}

unfoldable pub start_or_continue : RetryManager → List String → RetryManager
unfolding fresh
start_or_continue m ids = elim m.pending [
  | none ↦ record m { pending = some (fresh ids) }
  | some ctx ↦ m
]

-- The branch of a retryable failure: the new context, and the sleep where one is advised.
unfoldable pub fail_transient : RetryContext → ℕ → ℕ → RetryContext × Option ℕ
unfolding retry_delay_us jitter_us
fail_transient ctx now draw =
    let attempt = ctx.attempt + 1 in
    let sleep = jitter_us (retry_delay_us (min attempt 4)) draw in
    if leb max_attempts attempt
    then (
      record ctx {
        attempt = attempt;
        circuit_state = open';
        circuit_open_until = now + circuit_open_us;
      },
      none,
    )
    else (record ctx { attempt = attempt; next_retry_at = now + sleep }, some sleep)

-- `none` stands for the reply `(False, 0.0)`, `some s` for `(True, s)`.
unfoldable pub record_failure :
    RetryManager → Bool → String → Option ℕ → ℕ → ℕ → RetryManager × Option ℕ
unfolding now_or fail_transient
record_failure m retryable error now clock draw = elim m.pending [
  | none ↦ (m, none)
  | some ctx ↦
      let noted = record ctx { last_error = error } in
      let (ctx', sleep) = fail_transient noted (now_or now clock) draw in
      if retryable
      then (record m { pending = some ctx'; transient_total = m.transient_total + 1 }, sleep)
      else (record m { pending = some noted; permanent_total = m.permanent_total + 1 }, none)
]

unfoldable pub probe : RetryContext → ℕ → RetryContext × Bool
probe ctx now = elim ctx.circuit_state [
  | closed ↦ (ctx, true)
  | open' ↦
      if leb ctx.circuit_open_until now
      then (record ctx { circuit_state = half_open }, true)
      else (ctx, false)
  | half_open ↦ (ctx, true)
]

unfoldable pub circuit_allows_attempt : RetryManager → Option ℕ → ℕ → RetryManager × Bool
unfolding now_or probe
circuit_allows_attempt m now clock = elim m.pending [
  | none ↦ (m, true)
  | some ctx ↦
      let (ctx', allowed) = probe ctx (now_or now clock) in
      (record m { pending = some ctx' }, allowed)
]

unfoldable pub record_success : RetryManager → RetryManager
unfolding clear
record_success m = clear m

unfoldable pub half_open_failed : RetryManager → Option ℕ → ℕ → RetryManager
unfolding now_or
half_open_failed m now clock = elim m.pending [
  | none ↦ m
  | some ctx ↦ record m {
    pending = some (record ctx {
      circuit_state = open';
      circuit_open_until = now_or now clock + circuit_open_us;
    });
  }
]
