-- ===== src/Tests/Retry.antt =====
-- Tests of Projector/Retry: a batch that fails until the circuit opens.
use smart_data_models.Prelude.{
  ℕ, ◌≡◌, refl, arith, true, false, none, List, [], ◌∷◌, ltb, leb, if◌then◌else◌, length, ◌+◌,
}
use smart_data_models.Projector.Retry.{
  init, fresh, start_or_continue, fail_transient, circuit_allows_attempt, max_attempts,
  circuit_open_us, retry_delay_us,
}
use smart_data_models.Projector.Retry.Circuit.{
  Call, start, fail, ask, probe_failed, run, IsValidPending, run-IsValidPending, IsAdvice,
  fail_transient-IsAdvice, fail_all, opens_at, circuit_allows_attempt-fail_all,
}

abbrev calls : List Call
calls =
    start ("e1" ∷ "e2" ∷ [])
    ∷ fail true "timeout" none 100 0
    ∷ ask none 200
    ∷ fail false "bad" none 300 0
    ∷ probe_failed none 400
    ∷ ask none 30000400
    ∷ []

run-IsValidPending_example : IsValidPending (run init calls).pending
run-IsValidPending_example = run-IsValidPending init calls (unfold init in tt)

-- The second failure of a batch advises a sleep of half a second, give or take a fifth.
fail_transient-IsAdvice_example :
    IsAdvice
      (record (fresh ("e1" ∷ [])) { attempt = 1 })
      700
      (fail_transient (record (fresh ("e1" ∷ [])) { attempt = 1 }) 700 150000)
fail_transient-IsAdvice_example =
    fail_transient-IsAdvice (record (fresh ("e1" ∷ [])) { attempt = 1 }) 700 150000
      (unfold retry_delay_us in omega arith)

abbrev four_more : List (ℕ × ℕ)
four_more = (20, 0) ∷ (30, 0) ∷ (40, 0) ∷ (50, 0) ∷ []

circuit_allows_attempt-fail_all_example :
    (circuit_allows_attempt
      (fail_all (start_or_continue init ("e1" ∷ [])) ((10, 0) ∷ four_more))
      none
      30000049).1
    ≡ (if ltb (length four_more + 1) max_attempts
        then true
        else leb (opens_at 10 four_more + circuit_open_us) 30000049)
circuit_allows_attempt-fail_all_example =
    circuit_allows_attempt-fail_all init ("e1" ∷ []) 10 0 four_more 30000049 (unfold init in refl)

still_open :
    (circuit_allows_attempt
      (fail_all (start_or_continue init ("e1" ∷ [])) ((10, 0) ∷ four_more))
      none
      30000049).1
    ≡ false
unfolding circuit_allows_attempt fail_all start_or_continue init
still_open = refl
