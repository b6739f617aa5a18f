-- ===== src/Ingestion.antt =====
-- src/ingestion: checking documents against a schema, and the ingest routes.
pub mod Document
pub mod Scanning
pub mod Fields
pub mod Conformance
pub mod Acceptance
pub mod Lines
pub mod Routes
pub mod Documents
pub mod Bulk
pub mod Tests
