-- ===== src/Indexer.antt =====
-- src/index_manager.rs and src/indexer.rs: the indexes that are open, and the actor that writes the
-- events of the log into them.
pub mod Engine
pub mod Manager
pub mod Document
pub mod Actor
pub mod Loop
pub mod Growth
pub mod Marks
pub mod Readiness
pub mod Caching
pub mod Roots
pub mod Tests
