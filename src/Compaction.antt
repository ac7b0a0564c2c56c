-- ===== src/Compaction.antt =====
-- Key ranges and the status of the running compactions (src/compaction.rs).
pub mod KeyRange
pub mod CompactDef
pub mod Status
