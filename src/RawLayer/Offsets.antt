-- ===== src/RawLayer/Offsets.antt =====
-- de/kafka_raw/offset_tracker.py and de/bronze/offset_tracker.py. Their state, `mark_completed` and
-- `load_committed_record` are, under other names, those of Projector/OffsetTracker; what they offer for
-- a commit is not: an offset that is committed already is not offered again.
pub mod Next
use smart_data_models.Prelude.{
  ℕ, ◌+◌, String, Bool, true, false, Option, none, some, List, [], ◌∷◌, ltb, if◌then◌else◌, Dict,
  get, put, remove, topic_partition_key, TopicPartition,
}
use smart_data_models.Projector.OffsetTracker.{
  OffsetTracker, least, walk_all, done_at, advance_commit,
}

-- The offset to commit, of the completed ones and the last committed one.
unfoldable pub next_completed : List ℕ → Option ℕ → Option ℕ
unfolding walk_all least
next_completed [] committed = none
next_completed (x ∷ xs) none = some (walk_all (x ∷ xs) (least x xs))
next_completed (x ∷ xs) (some start) =
    let last = walk_all (x ∷ xs) start in if ltb start last then some last else none

unfoldable pub contiguous_completed_record_offset : OffsetTracker → TopicPartition → Option ℕ
unfolding get next_completed
contiguous_completed_record_offset t key =
    next_completed (done_at t.completed key) (get t.committed key)

-- The method of de/bronze: with nothing committed, the run must begin at `source_start` or below.
unfoldable pub next_from : ℕ → List ℕ → Option ℕ → Option ℕ
unfolding next_completed least
next_from source_start [] committed = none
next_from source_start (x ∷ xs) none =
    if ltb source_start (least x xs) then none else next_completed (x ∷ xs) none
next_from source_start (x ∷ xs) (some start) = next_completed (x ∷ xs) (some start)

unfoldable pub contiguous_from : OffsetTracker → TopicPartition → ℕ → Option ℕ
unfolding get next_from
contiguous_from t key source_start =
    next_from source_start (done_at t.completed key) (get t.committed key)

-- Kafka's commit names the next offset to read.
unfoldable pub kafka_commit_offset : ℕ → ℕ
kafka_commit_offset completed_record_offset = completed_record_offset + 1

unfoldable pub advance_after_commit : OffsetTracker → TopicPartition → ℕ → OffsetTracker
unfolding advance_commit
advance_after_commit t key record_offset = advance_commit t key record_offset

unfoldable pub last_committed_record_offset : OffsetTracker → TopicPartition → Option ℕ
unfolding get
last_committed_record_offset t key = get t.committed key

-- The method of de/bronze
unfoldable pub reset_partition : OffsetTracker → TopicPartition → OffsetTracker
unfolding remove
reset_partition t key = record {
  completed = remove t.completed key;
  committed = remove t.committed key;
}
