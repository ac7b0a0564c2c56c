-- ===== src/TableRef.antt =====
-- What the levels and the compaction status see of an open table (src/table/table.rs, `TableCore`):
-- its id, its smallest and biggest key and its size. The reference count is shared between the owners
-- of the table; what the code does to it is kept as a trace of increments and decrements.
use badger_rs.Common.{ℕ}
use badger_rs.Common.Keys.{Key}

pub record Table : Type 0 where
  pub id : ℕ
  pub smallest : Key
  pub biggest : Key
  pub size : ℕ

pub data RefEvent : Type 0 where
  incr_ref decr_ref : ℕ → RefEvent
