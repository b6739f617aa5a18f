-- ===== src/Registry.antt =====
-- src/registry.rs: the registry of index definitions.
pub mod Store
pub mod Loading
pub mod Consistency
pub mod Lookups
pub mod Refinement
pub mod Counting
pub mod Tests
