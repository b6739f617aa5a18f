-- ===== src/Schema.antt =====
-- src/schema: index definitions, their validation and the Tantivy schema that is made of one.
pub mod Definition
pub mod Validation
pub mod Retentions
pub mod Validity
pub mod Builder
pub mod FieldOrder
pub mod FieldNames
pub mod Tests
