-- ===== src/Tests/Buffers.antt =====
-- Tests of RawLayer/Buffers: records of two partitions, one of them taken out.
use smart_data_models.Prelude.{
  ℕ, [], ◌∷◌, ◌++◌, ◌≡◌, refl, List, remove, topic_partition_key, TopicPartition,
}
use smart_data_models.RawLayer.Buffers.{
  Destination, raw, quarantine, BufferedRecord, BatchBufferManager,
}
use smart_data_models.RawLayer.Buffers.Order.{
  Step, arrive, take_out, step_all, held, gone_all, arrived_all, gone_all-step_all,
}

abbrev place : TopicPartition
place = ("raw", 0)

abbrev rec : ℕ → Destination → BufferedRecord
rec o destination = record {
  topic = "raw";
  partition = 0;
  offset = o;
  raw_ingestion_id = "id";
  destination = destination;
  row = "{}";
  size_bytes = 2;
  received_at = 0;
}

abbrev manager : BatchBufferManager
manager = record {
  batch_size = 500;
  flush_ms = 500;
  max_buffered_records = 5000;
  max_buffered_bytes = 1000;
  raw = [];
  quarantine = [];
}

abbrev steps : List Step
steps =
    arrive (rec 1 raw) 5
    ∷ arrive (rec 2 raw) 6
    ∷ arrive (rec 3 quarantine) 7
    ∷ take_out raw place
    ∷ arrive (rec 4 raw) 8
    ∷ []

still_held : held (step_all steps manager) raw place ≡ rec 4 raw ∷ []
unfolding step_all held topic_partition_key remove
still_held = refl

gone_all-step_all_example :
    gone_all steps manager raw place ++ held (step_all steps manager) raw place
    ≡ held manager raw place ++ arrived_all steps raw place
gone_all-step_all_example = gone_all-step_all steps manager raw place
