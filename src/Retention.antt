-- ===== src/Retention.antt =====
-- src/retention.rs: the retention worker and the sizes and durations that it reads.
pub mod Duration
pub mod Policies
pub mod Size
pub mod Cleanup
pub mod Pruning
pub mod Order
pub mod Worker
pub mod Tick
pub mod Tests
