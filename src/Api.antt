-- ===== src/Api.antt =====
-- src/api: authentication, the management of indexes, and search.
pub mod Auth
pub mod Query
pub mod Searching
pub mod Hits
pub mod Search
pub mod Cluster
pub mod Router
pub mod Indexes
pub mod Managing
pub mod Persistence
pub mod Tests
