-- ===== src/RawLayer/Offsets/Next.antt =====
-- What the trackers of de/kafka_raw/offset_tracker.py and de/bronze/offset_tracker.py offer for a commit.
use smart_data_models.Prelude.{
  ℕ, ◌+◌, ◌≤◌, ◌<◌, true, false, Option, none, some, List, [], ◌∷◌, ◌≡◌, refl, subst, arith,
  Bool-cases, inl, inr, ltb, if-split, get, topic_partition_key, TopicPartition,
}
use smart_data_models.Projector.OffsetTracker.{
  OffsetTracker, contains, least, walk_all, done_at, highest,
}
use smart_data_models.Projector.OffsetTracker.Prefix.{
  IsPrefixEnd, walk_all-IsPrefixEnd, contains-least, IsHighest, highest-IsHighest,
}
use smart_data_models.RawLayer.Offsets.{
  next_completed, contiguous_completed_record_offset, next_from, contiguous_from,
}

-- The offset offered, of the completed ones and the last committed one.
abbrev pub IsNext : List ℕ → Option ℕ → Option ℕ → Type 0
IsNext done (some start) (some r) = (start < r) × IsPrefixEnd start done r
IsNext done (some start) none = contains done (start + 1) ≡ false
IsNext done none (some r) = IsHighest done none (some r)
IsNext done none none = (o : ℕ) → contains done o ≡ false

still : {start last : ℕ} → start ≤ last → ltb start last ≡ false → last ≡ start
still le same = ground (arith, le, same)

next_completed-IsNext :
    (done : List ℕ) (committed : Option ℕ) → IsNext done committed (next_completed done committed)
unfolding next_completed
next_completed-IsNext [] none = λ o. unfold contains in refl
next_completed-IsNext [] (some start) = unfold contains in refl
next_completed-IsNext (x ∷ xs) none = unfold highest in highest-IsHighest (x ∷ xs) none
next_completed-IsNext (x ∷ xs) (some start) =
    let last = walk_all (x ∷ xs) start in
    let ended = walk_all-IsPrefixEnd (x ∷ xs) start in
    if-split (IsNext (x ∷ xs) (some start)) (ltb start last) (some last) none
      (λ (more : ltb start last ≡ true). (ground (arith, more), ended))
      (λ (same : ltb start last ≡ false).
        subst (λ (n : ℕ). contains (x ∷ xs) (n + 1) ≡ false) (still ended.after same) ended.maximal)

-- What the raw consumer may commit for a partition: with an offset committed already, the end of the
-- run of completed offsets right after it, which is strictly greater and whose successor is open, and
-- nothing exactly where that run is empty; with none committed, the end of the run from the least
-- completed offset.
pub contiguous_completed_record_offset-IsNext :
    (t : OffsetTracker) (key : TopicPartition)
    → IsNext
        (done_at t.completed key)
        (get t.committed key)
        (contiguous_completed_record_offset t key)
unfolding contiguous_completed_record_offset
contiguous_completed_record_offset-IsNext t key =
    next_completed-IsNext (done_at t.completed key) (get t.committed key)

none-some : {r : ℕ} → (none ≡ some r) → ⊥
none-some h = cc h

filled_from :
    (done : List ℕ) (low r source_start o : ℕ)
    → contains done low ≡ true
    → IsPrefixEnd low done r
    → low ≤ source_start
    → source_start ≤ o
    → o ≤ r
    → contains done o ≡ true
filled_from done low r source_start o at ended le from to = elim (Bool-cases (ltb low o)) [
  | inl above ↦ ended.filled o (ground (arith, above)) to
  | inr not_above ↦ subst (λ (n : ℕ). contains done n ≡ true) (level not_above) at
]
  where
    level : ltb low o ≡ false → low ≡ o
    level e = ground (arith, e, le, from)

some-some : {a b : ℕ} → some a ≡ some b → a ≡ b
some-some h = cc h

not_ltb : {a b : ℕ} → ltb a b ≡ false → b ≤ a
not_ltb h = ground (arith, h)

next_from_filled :
    (done : List ℕ) (source_start r : ℕ)
    → next_from source_start done none ≡ some r
    → (o : ℕ) → source_start ≤ o
    → o ≤ r
    → contains done o ≡ true
unfolding next_from next_completed
next_from_filled [] source_start r h o from to = absurd (none-some h)
next_from_filled (x ∷ xs) source_start r h o from to =
    elim (Bool-cases (ltb source_start (least x xs))) [
      | inl far ↦ absurd (none-some (rw far at h))
      | inr near ↦
          let reached : walk_all (x ∷ xs) (least x xs) ≡ r = some-some (rw near at h) in
          filled_from (x ∷ xs) (least x xs) r source_start o (contains-least x xs)
            (subst (λ (n : ℕ). IsPrefixEnd (least x xs) (x ∷ xs) n) reached
              (walk_all-IsPrefixEnd (x ∷ xs) (least x xs)))
            (not_ltb near) from to
    ]

-- What the bronze consumer may commit first leaves no hole: every offset from the one where the source
-- starts up to the one offered is completed.
pub contiguous_from_filled :
    (t : OffsetTracker) (key : TopicPartition) (source_start r : ℕ)
    → get t.committed key ≡ none
    → contiguous_from t key source_start ≡ some r
    → (o : ℕ) → source_start ≤ o
    → o ≤ r
    → contains (done_at t.completed key) o ≡ true
unfolding contiguous_from
contiguous_from_filled t key source_start r fresh h =
    next_from_filled (done_at t.completed key) source_start r (
      subst (λ (c : Option ℕ). next_from source_start (done_at t.completed key) c ≡ some r) fresh h)
