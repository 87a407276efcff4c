-- ===== src/RawLayer/Buffers.antt =====
-- de/kafka_raw/batch_buffer.py: the buffers of the raw consumer, for each partition one of the raw
-- records and one of those that go to quarantine. Times are milliseconds of the monotonic clock.
pub mod Order
use smart_data_models.Prelude.{
  ℕ, ◌+◌, ◌-◌, String, Bool, true, false, ◌||◌, Option, none, some, List, [], ◌∷◌, ◌++◌, leb,
  if◌then◌else◌, length, sum_by, sum_values, Dict, get, put, remove, TopicPartition,
  topic_partition_key,
}

-- Any other text than RAW is a quarantine.
pub data Destination : Type 0 where
  raw quarantine : Destination

-- The row is its text.
pub record BufferedRecord : Type 0 where
  pub topic : String
  pub partition : ℕ
  pub offset : ℕ
  pub raw_ingestion_id : String
  pub destination : Destination
  pub row : String
  pub size_bytes : ℕ
  pub received_at : ℕ

pub record PartitionBuffer : Type 0 where
  pub records : List BufferedRecord
  pub first_at : ℕ

pub record BatchBufferManager : Type 0 where
  pub batch_size : ℕ
  pub flush_ms : ℕ
  pub max_buffered_records : ℕ
  pub max_buffered_bytes : ℕ
  pub raw : Dict TopicPartition PartitionBuffer
  pub quarantine : Dict TopicPartition PartitionBuffer

unfoldable pub size_of : PartitionBuffer → ℕ
size_of b = sum_by (λ (r : BufferedRecord). r.size_bytes) b.records

unfoldable pub age_of : PartitionBuffer → ℕ → ℕ
age_of b clock = clock - b.first_at

unfoldable pub buffers_of : BatchBufferManager → Destination → Dict TopicPartition PartitionBuffer
buffers_of m raw = m.raw
buffers_of m quarantine = m.quarantine

unfoldable pub with_buffers :
    BatchBufferManager → Destination → Dict TopicPartition PartitionBuffer → BatchBufferManager
with_buffers m raw d = record m { raw = d }
with_buffers m quarantine d = record m { quarantine = d }

-- The age counts from the first record of a buffer that was empty.
unfoldable pub first_of : List BufferedRecord → ℕ → ℕ → ℕ
first_of [] clock first = clock
first_of (r ∷ rs) clock first = first

unfoldable pub grown : Option PartitionBuffer → BufferedRecord → ℕ → PartitionBuffer
unfolding first_of
grown none rec clock = record { records = rec ∷ []; first_at = clock }
grown (some b) rec clock = record {
  records = b.records ++ rec ∷ [];
  first_at = first_of b.records clock b.first_at;
}

abbrev pub key_of : BufferedRecord → TopicPartition
key_of rec = (rec.topic, rec.partition)

unfoldable pub add_to :
    Dict TopicPartition PartitionBuffer → BufferedRecord → ℕ → Dict TopicPartition PartitionBuffer
unfolding grown get put
add_to d rec clock = put d (key_of rec) (grown (get d (key_of rec)) rec clock)

unfoldable pub add : BatchBufferManager → BufferedRecord → ℕ → BatchBufferManager
unfolding add_to buffers_of with_buffers
add m rec clock = with_buffers m rec.destination (add_to (buffers_of m rec.destination) rec clock)

unfoldable pub total_records : BatchBufferManager → ℕ
total_records m =
    sum_values (λ b. length b.records) m.raw + sum_values (λ b. length b.records) m.quarantine

unfoldable pub total_bytes : BatchBufferManager → ℕ
unfolding size_of
total_bytes m = sum_values size_of m.raw + sum_values size_of m.quarantine

unfoldable pub should_pause : BatchBufferManager → Bool
unfolding total_records total_bytes
should_pause m =
    leb m.max_buffered_records (total_records m) || leb m.max_buffered_bytes (total_bytes m)

unfoldable pub is_ready : BatchBufferManager → ℕ → PartitionBuffer → Bool
unfolding age_of
is_ready m clock b = elim b.records [
  | [] ↦ false
  | r ∷ rs ↦ leb m.batch_size (length b.records) || leb m.flush_ms (age_of b clock)
]

unfoldable pub ready_in :
    BatchBufferManager → ℕ → Dict TopicPartition PartitionBuffer → List TopicPartition
unfolding is_ready
ready_in m clock [] = []
ready_in m clock ((key, b) ∷ d) =
    let rest = ready_in m clock d in if is_ready m clock b then key ∷ rest else rest

unfoldable pub ready_keys : BatchBufferManager → Destination → ℕ → List TopicPartition
unfolding ready_in buffers_of
ready_keys m destination clock = ready_in m clock (buffers_of m destination)

unfoldable pub records_of : Option PartitionBuffer → List BufferedRecord
records_of none = []
records_of (some b) = b.records

unfoldable pub pop :
    BatchBufferManager → Destination → TopicPartition → BatchBufferManager × List BufferedRecord
unfolding records_of buffers_of with_buffers
pop m destination key = (
  with_buffers m destination (remove (buffers_of m destination) key),
  records_of (get (buffers_of m destination) key),
)

unfoldable pub discard_partition : BatchBufferManager → TopicPartition → BatchBufferManager
discard_partition m key = record m { raw = remove m.raw key; quarantine = remove m.quarantine key }
