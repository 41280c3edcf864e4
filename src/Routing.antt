-- ===== src/Routing.antt =====
-- src/core/registry.c, and the routing and the level filter of src/core/pipeline.c: which rule a
-- record goes by, and the table of categories that caches it.
pub mod Rules
pub mod Registry
pub mod Selected
pub mod Unique
pub mod Cached
pub mod Filter
mod Tests
