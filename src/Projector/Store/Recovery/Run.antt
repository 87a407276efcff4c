-- ===== src/Projector/Store/Recovery/Run.antt =====
-- What `rebuild_completed_offsets` of Visualize/integration/projector/store.py finds.
use smart_data_models.Prelude.{
  ℕ, ◌+◌, ◌≤◌, ◌<◌, String, Bool, true, false, ◌&&◌, ◌||◌, Option, some, List, [], ◌∷◌, ◌≡◌, refl,
  sym, ap, ◌∙◌, inl, inr, arith, eqb, if◌then◌else◌, Bool-cases, string_key, ◌==◌, Dict,
  TopicPartition, topic_partition_key,
}
use smart_data_models.Projector.Tables.{
  Status, is_completed, LedgerRow, text_pair_key, ProjectorStore,
}
use smart_data_models.Projector.Store.Recovery.{
  is_after, rows_of, insert_by_offset, order_by_offset, run_on, run_from, rebuild_completed_offsets,
}

-- Some row of the place has the offset, and is completed.
abbrev pub has_completed : Dict String LedgerRow → TopicPartition → ℕ → Bool
has_completed [] place o = false
has_completed ((id, r) ∷ ledger) place o =
    (r.place == place && eqb r.offset o && is_completed r.status) || has_completed ledger place o

hit : ℕ × Status → ℕ → Bool
hit (offset, status) o = eqb offset o && is_completed status

abbrev holds : List (ℕ × Status) → ℕ → Bool
holds [] o = false
holds (p ∷ rows) o = hit p o || holds rows o

holds-insert_by_offset :
    (p : ℕ × Status) (qs : List (ℕ × Status)) (o : ℕ)
    → holds (insert_by_offset p qs) o ≡ holds (p ∷ qs) o
unfolding insert_by_offset
holds-insert_by_offset p [] o = refl
holds-insert_by_offset p (q ∷ qs) o = ground (arith, holds-insert_by_offset p qs o)

holds-order_by_offset : (ps : List (ℕ × Status)) (o : ℕ) → holds (order_by_offset ps) o ≡ holds ps o
unfolding order_by_offset
holds-order_by_offset [] o = refl
holds-order_by_offset (p ∷ ps) o =
    holds-insert_by_offset p (order_by_offset ps) o
    ∙ ap (λ (b : Bool). hit p o || b) (holds-order_by_offset ps o)

row_case :
    (here in_range at done : Bool) (p : ℕ × Status) (rows : List (ℕ × Status)) (o : ℕ) {rest : Bool}
    → (holds rows o ≡ true → rest ≡ true)
    → hit p o ≡ (at && done)
    → holds (if here && in_range then p ∷ rows else rows) o ≡ true
    → ((here && at && done) || rest) ≡ true
row_case here in_range at done p rows o ih e h = ground (arith, ih, e, h)

holds-rows_of :
    (ledger : Dict String LedgerRow) (place : TopicPartition) (after : Option ℕ) (o : ℕ)
    → holds (rows_of ledger place after) o ≡ true
    → has_completed ledger place o ≡ true
unfolding rows_of hit
holds-rows_of [] place after o h = cc h
holds-rows_of ((id, r) ∷ ledger) place after o h =
    row_case (r.place == place) (is_after after r.offset) (eqb r.offset o) (is_completed r.status)
      (r.offset, r.status) (rows_of ledger place after) o (holds-rows_of ledger place after o) refl
      h

-- From `a` on, a run of completed rows without a gap.
abbrev IsRun : (ℕ → Bool) → ℕ → Option ℕ → Type 0
IsRun done a result =
    (last : ℕ) × (result ≡ some last) × (a ≤ last) × ((o : ℕ) → a < o → o ≤ last → done o ≡ true)

IsRun-empty : (done : ℕ → Bool) (a : ℕ) → IsRun done a (some a)
IsRun-empty done a = (a, refl, omega arith, λ o low high. absurd (omega arith))

run_on-IsRun :
    (rows : List (ℕ × Status)) (a : ℕ) → IsRun (holds rows) a (run_on rows (a + 1) (some a))
unfolding run_on hit
run_on-IsRun [] a = IsRun-empty (holds []) a
run_on-IsRun ((offset, status) ∷ rows) a = elim (Bool-cases (eqb offset (a + 1))) [
  | inr gap ↦ (a, rw gap, omega arith, λ o low high. absurd (omega arith))
  | inl next ↦ elim (Bool-cases (is_completed status)) [
    | inr open' ↦ (a, rw (next, open'), omega arith, λ o low high. absurd (omega arith))
    | inl done ↦
        let (last, e, above, filled) = run_on-IsRun rows offset in
        (
          last,
          rw (next, done) e,
          ground (arith, next, above),
          λ o low high. ground (arith, next, done, filled o, low, high),
        )
  ]
]

IsRun-map :
    (f g : ℕ → Bool) (a : ℕ) (r : Option ℕ)
    → ((o : ℕ) → f o ≡ true → g o ≡ true)
    → IsRun f a r
    → IsRun g a r
IsRun-map f g a r moves (last, e, above, filled) =
    (last, e, above, λ o low high. moves o (filled o low high))

run_from-IsRun : (rows : List (ℕ × Status)) (a : ℕ) → IsRun (holds rows) a (run_from rows (some a))
unfolding run_from
run_from-IsRun [] a = IsRun-empty (holds []) a
run_from-IsRun (p ∷ ps) a = run_on-IsRun (p ∷ ps) a

-- After an offset that is committed, the offset rebuilt from the ledger is never below it, and every
-- offset after the committed one up to it has a completed row of the partition in the ledger.
pub rebuild_completed_offsets-IsRun :
    (s : ProjectorStore) (place : TopicPartition) (a : ℕ)
    → (last : ℕ) × (rebuild_completed_offsets s place (some a) ≡ some last)
      × (a ≤ last)
      × ((o : ℕ) → a < o → o ≤ last → has_completed s.ledger place o ≡ true)
unfolding rebuild_completed_offsets
rebuild_completed_offsets-IsRun s place a =
    let rows = rows_of s.ledger place (some a) in
    IsRun-map (holds (order_by_offset rows)) (has_completed s.ledger place) a
      (run_from (order_by_offset rows) (some a))
      (λ o h. holds-rows_of s.ledger place (some a) o (sym (holds-order_by_offset rows o) ∙ h))
      (run_from-IsRun (order_by_offset rows) a)
