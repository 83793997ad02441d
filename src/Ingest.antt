-- ===== src/Ingest.antt =====
-- frvt/ingest: the mapping rows that an ingredient yields.
pub mod Mappings
pub mod Tests
