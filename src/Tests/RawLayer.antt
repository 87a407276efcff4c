-- ===== src/Tests/RawLayer.antt =====
-- Tests of RawLayer: offsets completed out of order.
use smart_data_models.Prelude.{
  true, [], ◌∷◌, ◌≡◌, refl, arith, get, topic_partition_key, TopicPartition,
}
use smart_data_models.Projector.OffsetTracker.{
  OffsetTracker, contains, least, walk, walk_all, done_at, greatest,
}
use smart_data_models.RawLayer.Offsets.{
  contiguous_completed_record_offset, contiguous_from, next_completed, next_from,
}
use smart_data_models.RawLayer.Offsets.Next.{
  IsNext, contiguous_completed_record_offset-IsNext, contiguous_from_filled,
}

abbrev partition : TopicPartition
partition = ("raw", 0)

abbrev tracker : OffsetTracker
tracker = record { completed = (partition, 6 ∷ 4 ∷ 5 ∷ 9 ∷ []) ∷ []; committed = [] }

contiguous_completed_record_offset-IsNext_example :
    IsNext
      (done_at tracker.completed partition)
      (get tracker.committed partition)
      (contiguous_completed_record_offset tracker partition)
contiguous_completed_record_offset-IsNext_example =
    contiguous_completed_record_offset-IsNext tracker partition

contiguous_from_filled_example : contains (done_at tracker.completed partition) 5 ≡ true
contiguous_from_filled_example =
    contiguous_from_filled tracker partition 4 6 (unfold get in refl)
      (unfold contiguous_from next_from next_completed get topic_partition_key least walk_all walk
          contains greatest in
        refl)
      5 (omega arith) (omega arith)
