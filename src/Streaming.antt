-- ===== src/Streaming.antt =====
-- src/millrace/streaming: change events from Kafka to the current state of each entity.
pub mod Json
pub mod Models
pub mod Schemas
pub mod Parser
pub mod State
pub mod Storage
pub mod Config
pub mod Ingestion
pub mod Tests
