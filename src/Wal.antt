-- ===== src/Wal.antt =====
-- src/wal.rs: the write-ahead log.
pub mod Utf8
pub mod Frame
pub mod Reader
pub mod RoundTrip
pub mod TornWrites
pub mod Disk
pub mod Appender
pub mod Durability
pub mod Batches
pub mod Rotation
pub mod Answers
pub mod Recovery
pub mod TornBatches
pub mod Tiling
pub mod Start
pub mod Channel
pub mod Ending
pub mod Growth
pub mod Crash
pub mod Reliable
pub mod Tests
