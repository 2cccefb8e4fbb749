-- ===== src/Schema.antt =====
-- pkg/schema: a parsed schema and its operations.
pub mod Children
pub mod Element
pub mod Container
pub mod Lookup
pub mod BuildPath
pub mod Expand
pub mod Load
pub mod Tests
pub mod References
