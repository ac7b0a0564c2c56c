-- ===== src/Examples.antt =====
-- Concrete runs, with the interfaces of the other crates filled by simple functions.
mod BigEndian
mod ChangeCodec
mod Table
mod Compaction
mod Levels
mod Manifest
mod ValueLog
mod Filling
mod Running
mod Memory
mod Merging
mod SkipList
