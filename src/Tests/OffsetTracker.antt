-- ===== src/Tests/OffsetTracker.antt =====
-- Tests of Projector/OffsetTracker: completions that arrive out of order.
use smart_data_models.Prelude.{◌≡◌, refl, some, get, TopicPartition, topic_partition_key}
use smart_data_models.Projector.OffsetTracker.{
  OffsetTracker, init, done_at, mark_completed, contiguous_commit_offset, advance_commit,
  load_committed,
}
use smart_data_models.Projector.OffsetTracker.Prefix.{IsHighest}
use smart_data_models.Projector.OffsetTracker.Commit.{
  contiguous_commit_offset-IsHighest, contiguous_commit_offset-mark_completed_comm,
}

abbrev part : TopicPartition
part = ("traffic", 0)

-- Offset 10 is committed, and 13, 11 and 12 complete in this order; 15 is ahead of a gap.
abbrev sample : OffsetTracker
sample =
    mark_completed
      (mark_completed
        (mark_completed (mark_completed (load_committed init part 10) part 13) part 11) part 12)
      part 15

sample_commits : contiguous_commit_offset sample part ≡ some 13
unfolding contiguous_commit_offset mark_completed load_committed init topic_partition_key
sample_commits = refl

sample_advances : contiguous_commit_offset (advance_commit sample part 13) part ≡ some 13
unfolding contiguous_commit_offset advance_commit mark_completed load_committed init
    topic_partition_key
sample_advances = refl

contiguous_commit_offset-IsHighest_example :
    IsHighest
      (done_at sample.completed part)
      (get sample.committed part)
      (contiguous_commit_offset sample part)
contiguous_commit_offset-IsHighest_example = contiguous_commit_offset-IsHighest sample part

contiguous_commit_offset-mark_completed_comm_example :
    contiguous_commit_offset (mark_completed (mark_completed sample part 14) part 16) part
    ≡ contiguous_commit_offset (mark_completed (mark_completed sample part 16) part 14) part
contiguous_commit_offset-mark_completed_comm_example =
    contiguous_commit_offset-mark_completed_comm sample part part part 14 16
