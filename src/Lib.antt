-- ===== src/Lib.antt =====
-- badger-rs is a key-value store: a log-structured merge tree of sorted tables, with a value log
-- beside it. This library models the parts that decide what stands where, and proves that they do.
--
-- The parts and their files:
-- - Common: Boolean tests, lists, keys in the order of their bytes, binary search and sorting on
--   slices, hash maps as association lists, and fixed-width integers as an interface (`ByteOrder`),
--   since the crate that reads and writes them is not part of the repository.
-- - Value: `ValueStruct` of src/y/iterator.rs and its bytes.
-- - Table: `Header` and `Builder` of src/table/builder.rs, and the iterators of
--   src/table/iterator.rs over a block, a table and the tables of a level, which read back the blocks
--   that the builder writes. To the iterators a table is its blocks and its block index; reading them
--   from the file is not modelled.
-- - TableRef: what a level sees of an open table (src/table/table.rs, `TableCore`). What the code
--   does to reference counts is a trace of increments and decrements.
-- - Compaction: `KeyRange`, `LevelCompactStatus` and `CompactStatus` of src/compaction.rs, and
--   `CompactDef` of src/levels.rs: which ranges are being compacted.
-- - LevelHandler: `LevelHandler` of src/level_handler.rs: the tables of one level, their order, their
--   sizes, and the lookup of a key. The bloom test and the search inside a table are parameters.
-- - Manifest: `Manifest` and `ManifestFile` of src/manifest.rs: which table stands on which level, and
--   the file that remembers it. The protocol buffers and the checksum are the interface `Codec`,
--   and what one read of a file gets is the interface `FileRead`.
-- - ValueLog: `Header`, `Entry` and `ValuePointer` of src/value_log.rs and their bytes.
-- - Levels: choosing the tables of a compaction and running it (src/levels.rs, `fill_tables_l0`,
--   `fill_tables`, `build_change_set`, `run_compact_def`), and looking a key up in all levels (`get`).
--   Building the new tables is a parameter.
-- - Skl: the memory of the skip list, `DoubleAlloc` and `Arena` of src/skl/alloc.rs and
--   src/skl/arena.rs, and the packed place of a value of src/skl/node.rs. Skl.Skip is the list itself
--   (src/skl/skip.rs): its search, insertion, lookup and iterators, as one thread runs them. A new node
--   takes its key, its value and its offset from the arena; its height, which is drawn at random, and
--   the size of a node are arguments. A node stands by its offset in a map, with its key and its value
--   as they are read from the arena.
-- - Merge: the merge of several iterators of src/y/merge_iterator.rs. The merged iterators are the
--   interface `Xiterator`, and the standard library's heap is a list in its order.
-- - Examples: concrete runs, with the interfaces filled.
--
-- State is a record that each operation takes and returns. A panic is an outer `none`, or a
-- constructor of the result; errors are constructors too. Machine integers keep their wrap-around
-- (`u16`, `u32`, `u64`, `sub_u32`, `sub_u64`). A function that runs under a lock is one step.
--
-- Fuel: `Table.Block.drain` takes one step for each item and one to stop, and so do the seeks of a
-- block and the collecting of a table; a table's `_next` passes each block that is left once;
-- `replay_loop` takes a step for each record of at least eight bytes, and is given one more than the
-- length of the file. In the merge, `move_same` is given one more than the elements of the heap,
-- `push_first_other` takes a step for each item of its iterator and one to stop, and `collect` a step
-- for each item and one to stop. A search of the skip list goes right or down in each step, and is
-- given one more than its levels and its nodes.
--
-- Not modelled: the store's tasks and channels (src/kv.rs, src/iterator.rs), memory maps and log files
-- (src/log_file.rs), the workers of the levels controller and its scores, which are floating-point
-- numbers, the files of the value log, the cursor of the skip list (src/skl/cursor.rs)
-- and its exchanges that another thread makes fail, statistics, options, the generated protocol
-- buffers, and the parts of the files above that only print or log.
pub mod Common
pub mod Value
pub mod Table
pub mod TableRef
pub mod Compaction
pub mod LevelHandler
pub mod Manifest
pub mod ValueLog
pub mod Levels
pub mod Skl
pub mod Merge
mod Examples
