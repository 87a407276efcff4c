-- ===== src/Projector/OffsetTracker/Commit.antt =====
-- The operations of Visualize/integration/projector/offset_tracker.py on a whole tracker.
use smart_data_models.Prelude.{
  ℕ, ◌+◌, ◌||◌, ◌&&◌, max, true, false, Option, none, some, List, [], ◌∷◌, ◌≡◌, refl, arith, ltb,
  eqb, if◌then◌else◌, Bool-cases, inl, inr, get, get-put, same_refl, topic_partition_key,
  TopicPartition, ◌==◌, put, Dict,
}
use native.Mathlib.Nat.{le_refl}
use smart_data_models.Projector.OffsetTracker.{
  contains, add, OffsetTracker, done_at, mark_completed, contiguous_commit_offset, passes,
  prune_set, prune, advance_commit,
}
use smart_data_models.Projector.OffsetTracker.Prefix.{
  IsHighest, highest-IsHighest, IsHighest-unique, contains-add, contains-keep,
}

-- The offset that may be committed for a partition is the end of the run of completed offsets
-- after the committed one, the next offset being open; with nothing committed, of the run that
-- begins at the least completed offset; and there is none exactly where nothing is completed and
-- nothing committed.
pub contiguous_commit_offset-IsHighest :
    (t : OffsetTracker) (key : TopicPartition)
    → IsHighest (done_at t.completed key) (get t.committed key) (contiguous_commit_offset t key)
unfolding contiguous_commit_offset
contiguous_commit_offset-IsHighest t key =
    highest-IsHighest (done_at t.completed key) (get t.committed key)

done_at-mark_completed :
    (t : OffsetTracker) (key j : TopicPartition) (offset : ℕ)
    → done_at (mark_completed t key offset).completed j
      ≡ (if key == j then add (done_at t.completed key) offset else done_at t.completed j)
unfolding mark_completed
done_at-mark_completed t key j offset =
    ground (arith, get-put t.completed key (add (done_at t.completed key) offset) j)

contains-mark_completed :
    (t : OffsetTracker) (key j : TopicPartition) (offset o : ℕ)
    → contains (done_at (mark_completed t key offset).completed j) o
      ≡ ((key == j && eqb offset o) || contains (done_at t.completed j) o)
contains-mark_completed t key j offset o = ground (
  arith,
  done_at-mark_completed t key j offset,
  contains-add (done_at t.completed key) offset o,
  topic_partition_key.same_iff key j,
)

-- Completions that arrive in either order give the same offset to commit, for every partition.
pub contiguous_commit_offset-mark_completed_comm :
    (t : OffsetTracker) (k₁ k₂ key : TopicPartition) (o₁ o₂ : ℕ)
    → contiguous_commit_offset (mark_completed (mark_completed t k₁ o₁) k₂ o₂) key
      ≡ contiguous_commit_offset (mark_completed (mark_completed t k₂ o₂) k₁ o₁) key
contiguous_commit_offset-mark_completed_comm t k₁ k₂ key o₁ o₂ =
    IsHighest-unique (done_at a.completed key) (done_at b.completed key) (get t.committed key) _ _
      (λ o.
        rw
          (
            contains-mark_completed (mark_completed t k₁ o₁) k₂ key o₂ o,
            contains-mark_completed t k₁ key o₁ o,
            contains-mark_completed (mark_completed t k₂ o₂) k₁ key o₁ o,
            contains-mark_completed t k₂ key o₂ o,
          )
          (ground arith))
      (unfold mark_completed in contiguous_commit_offset-IsHighest a key)
      (unfold mark_completed in contiguous_commit_offset-IsHighest b key)
  where
    a : OffsetTracker
    a = mark_completed (mark_completed t k₁ o₁) k₂ o₂

    b : OffsetTracker
    b = mark_completed (mark_completed t k₂ o₂) k₁ o₁

IsHighest-open :
    (done : List ℕ) (committed : Option ℕ) (r : ℕ)
    → IsHighest done committed (some r)
    → contains done (r + 1) ≡ false
IsHighest-open done none r h = h.3.maximal
IsHighest-open done (some start) r h = h.maximal

contains-prune_set :
    (d : Dict TopicPartition (List ℕ)) (key : TopicPartition) (offset o : ℕ) (done : List ℕ)
    → done_at d key ≡ done
    → contains (done_at (prune_set d key offset done) key) o ≡ (ltb offset o && contains done o)
unfolding prune_set
contains-prune_set d key offset o [] e = rw e (unfold contains in ground arith)
contains-prune_set d key offset o (x ∷ xs) e =
    rw (done_at, get-put, same_refl) (contains-keep (λ q. ltb offset q) (x ∷ xs) o)

contains-prune :
    (d : Dict TopicPartition (List ℕ)) (key : TopicPartition) (offset o : ℕ)
    → contains (done_at (prune d key offset) key) o ≡ (ltb offset o && contains (done_at d key) o)
unfolding prune
contains-prune d key offset o = contains-prune_set d key offset o (done_at d key) refl

advance_commit-moves :
    (t : OffsetTracker) (key : TopicPartition) (offset : ℕ)
    → passes (get t.committed key) offset ≡ true
    → advance_commit t key offset
      ≡ record { completed = prune t.completed key offset; committed = put t.committed key offset }
unfolding advance_commit
advance_commit-moves t key offset h = rw h

moved :
    (t : OffsetTracker) (key : TopicPartition) (r : ℕ)
    → contiguous_commit_offset t key ≡ some r
    → contiguous_commit_offset
        (record { completed = prune t.completed key r; committed = put t.committed key r })
        key
      ≡ some r
moved t key r h =
    IsHighest-unique (done_at u.completed key) (done_at u.completed key) (some r) _ _ (λ o. refl)
      (rw (get-put, same_refl) at (contiguous_commit_offset-IsHighest u key))
      (record {
        after = le_refl r;
        filled = λ o a b. absurd (omega arith);
        maximal = rw (contains-prune t.completed key r (r + 1), open') (ground arith);
      })
  where
    u : OffsetTracker
    u = record { completed = prune t.completed key r; committed = put t.committed key r }

    open' : contains (done_at t.completed key) (r + 1) ≡ false
    open' =
        IsHighest-open (done_at t.completed key) (get t.committed key) r
          (rw h at (contiguous_commit_offset-IsHighest t key))

-- After the commit of the offset that may be committed, that offset stays the answer, until
-- another completion arrives.
pub contiguous_commit_offset-advance_commit :
    (t : OffsetTracker) (key : TopicPartition) (r : ℕ)
    → contiguous_commit_offset t key ≡ some r
    → contiguous_commit_offset (advance_commit t key r) key ≡ some r
contiguous_commit_offset-advance_commit t key r h =
    elim (Bool-cases (passes (get t.committed key) r)) [
      | inl moves ↦ rw (advance_commit-moves t key r moves) (moved t key r h)
      | inr stays ↦ unfold advance_commit in rw stays h
    ]

-- The committed offset never moves back, and moves of one partition leave the others alone.
pub committed-advance_commit :
    (t : OffsetTracker) (key j : TopicPartition) (offset : ℕ)
    → get (advance_commit t key offset).committed j ≡ (
        if key == j
        then elim (get t.committed key) [ none ↦ some offset | some prev ↦ some (max prev offset) ]
        else get t.committed j)
unfolding advance_commit passes
committed-advance_commit t key j offset =
    ground (arith, get-put t.committed key offset j, topic_partition_key.same_iff key j)
