-- ===== src/Projector/OffsetTracker.antt =====
-- Visualize/integration/projector/offset_tracker.py: which record offsets of a partition are
-- complete, and how far the commit may move. A set of offsets is a list without repetition.
pub mod Prefix
pub mod Commit
use smart_data_models.Prelude.{
  ℕ, zero, suc, ◌+◌, ◌-◌, max, String, Bool, true, false, ◌||◌, Option, none, some, List, [], ◌∷◌,
  ltb, eqb, if◌then◌else◌, keep, Dict, get, put, topic_partition_key, TopicPartition,
}

-- `o in done`
unfoldable pub contains : List ℕ → ℕ → Bool
contains [] o = false
contains (x ∷ xs) o = eqb x o || contains xs o

-- `done.add(o)`
unfoldable pub add : List ℕ → ℕ → List ℕ
unfolding contains
add done o = if contains done o then done else o ∷ done

-- `min(done)` of the non-empty set `x ∷ xs`
unfoldable pub least : ℕ → List ℕ → ℕ
least x [] = x
least x (y ∷ ys) = least (if ltb y x then y else x) ys

unfoldable pub greatest : List ℕ → ℕ
greatest [] = 0
greatest (x ∷ xs) = max x (greatest xs)

-- `while nxt in done: last = nxt; nxt += 1`, with `nxt = last + 1` throughout
unfoldable pub walk : ℕ → List ℕ → ℕ → ℕ
unfolding contains
walk zero done last = last
walk (suc fuel) done last =
    let rest = walk fuel done (last + 1) in if contains done (last + 1) then rest else last

-- Rounds enough to pass the greatest element.
unfoldable pub walk_all : List ℕ → ℕ → ℕ
unfolding walk greatest
walk_all done last = walk (greatest done + 1 - last) done last

pub record OffsetTracker : Type 0 where
  pub completed : Dict TopicPartition (List ℕ)
  pub committed : Dict TopicPartition ℕ

abbrev pub done_at : Dict TopicPartition (List ℕ) → TopicPartition → List ℕ
done_at d key = elim (get d key) [ none ↦ [] | some done ↦ done ]

unfoldable pub init : OffsetTracker
init = record { completed = []; committed = [] }

unfoldable pub mark_completed : OffsetTracker → TopicPartition → ℕ → OffsetTracker
unfolding get put add
mark_completed t key offset = record t {
  completed = put t.completed key (add (done_at t.completed key) offset);
}

-- The loop starts at the committed offset, or at the least completed one where there is none.
unfoldable pub highest : List ℕ → Option ℕ → Option ℕ
unfolding walk_all least
highest [] committed = committed
highest (x ∷ xs) none = some (walk_all (x ∷ xs) (least x xs))
highest (x ∷ xs) (some start) =
    let last = walk_all (x ∷ xs) start in if ltb start last then some last else some start

unfoldable pub contiguous_commit_offset : OffsetTracker → TopicPartition → Option ℕ
unfolding get highest
contiguous_commit_offset t key = highest (done_at t.completed key) (get t.committed key)

-- `offset > self._committed.get(key, -1)`
unfoldable pub passes : Option ℕ → ℕ → Bool
passes none offset = true
passes (some prev) offset = ltb prev offset

-- An empty set is left as it stands; any other keeps what lies above `offset`.
unfoldable pub prune_set :
    Dict TopicPartition (List ℕ) → TopicPartition → ℕ → List ℕ → Dict TopicPartition (List ℕ)
unfolding put
prune_set d key offset [] = d
prune_set d key offset (x ∷ xs) = put d key (keep (λ o. ltb offset o) (x ∷ xs))

unfoldable pub prune :
    Dict TopicPartition (List ℕ) → TopicPartition → ℕ → Dict TopicPartition (List ℕ)
unfolding get prune_set
prune d key offset = prune_set d key offset (done_at d key)

unfoldable pub advance_commit : OffsetTracker → TopicPartition → ℕ → OffsetTracker
unfolding get put passes prune
advance_commit t key offset =
    if passes (get t.committed key) offset
    then record { completed = prune t.completed key offset; committed = put t.committed key offset }
    else t

unfoldable pub load_committed : OffsetTracker → TopicPartition → ℕ → OffsetTracker
unfolding put
load_committed t key offset = record t { committed = put t.committed key offset }
