-- ===== src/Compaction/CompactDef.antt =====
-- A compaction that may run (src/levels.rs, `CompactDef`): the two levels, the tables of each that take
-- part, the ranges that they cover and the size that leaves the upper level.
use badger_rs.Common.{ℕ}
use badger_rs.Common.{List}
use badger_rs.TableRef.{Table}
use badger_rs.LevelHandler.{LevelHandler}
use badger_rs.Compaction.KeyRange.{KeyRange}

pub record CompactDef : Type 0 where
  pub this_level : LevelHandler
  pub next_level : LevelHandler
  pub top : List Table
  pub bot : List Table
  pub this_range : KeyRange
  pub next_range : KeyRange
  pub this_size : ℕ
