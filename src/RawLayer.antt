-- ===== src/RawLayer.antt =====
-- de/kafka_raw and de/bronze: the layers that take the raw events from Kafka.
pub mod Offsets
pub mod Buffers
