-- ===== src/Table/Block/Seek.antt =====
-- Moving over one block (src/table/iterator.rs, `BlockIterator`): the seeks, which go forward item by
-- item, the step back and the look at the current item. Fuel counts the items read.
use badger_rs.Common.{ℕ, zero, suc, ◌+◌}
use badger_rs.Common.{Bool, Option, none, some}
use badger_rs.Common.{◌==◌, if◌then◌else◌, ◌>>=◌, ◌>>◌}
use badger_rs.Common.{u32}
use badger_rs.Common.{slice}
use badger_rs.Common.Keys.{Key, key_le}
use badger_rs.Common.Bytes.{ByteOrder}
use badger_rs.Table.Header.{Header, header_size, is_dummy, from}
use badger_rs.Table.Builder.{u32_max}
use badger_rs.Table.Block.{Item, BlockIterator, reset, next, parse_kv, drain}
pub mod Ahead

pub data IteratorSeek : Type 0 where
  origin : IteratorSeek
  current : IteratorSeek

abbrev pub begin : IteratorSeek → BlockIterator → BlockIterator
begin origin it = reset it
begin current it = it

-- `self.last_block...unwrap()`, when there is a header that is not the dummy one
unfoldable pub peek : BlockIterator → Option (Option Item)
peek it = elim it.last_header [
  | none ↦ some none
  | some h ↦ if is_dummy h then some none else do item ← it.last_block; some (some item)
]

module _ ⦃bo : ByteOrder⦄ where
  -- `while let Some(item) = self.next()` up to an item that passes the test
  unfoldable pub next_until :
      ℕ → (Item → Bool) → BlockIterator → Option (Option Item × BlockIterator)
  next_until zero test it = none
  next_until (suc fuel) test it = do
    (read, it1) ← next it
    elim read [
      | none ↦ some (none, it1)
      | some item ↦ if test item then some (some item, it1) else next_until fuel test it1
    ]

  unfoldable pub seek :
      ℕ → Key → IteratorSeek → BlockIterator → Option (Option Item × BlockIterator)
  seek fuel key whence it = next_until fuel (λ item. key_le key item.0) (begin whence it)

  unfoldable pub seek_rewind :
      ℕ → Key → IteratorSeek → BlockIterator → Option (Option Item × BlockIterator)
  seek_rewind fuel key whence it = next_until fuel (λ item. key_le item.0 key) (begin whence it)

  unfoldable pub seek_to_first : BlockIterator → Option (Option Item × BlockIterator)
  seek_to_first it = next (reset it)

  unfoldable pub prev : BlockIterator → Option (Option Item × BlockIterator)
  prev it = elim it.last_header [
    | none ↦ some (none, it)
    | some last ↦
        if last.prev == u32_max
        then some (none, record it { pos = 0; last_header = none; last_block = none })
        else (do
          bytes ← slice last.prev header_size it.data_bytes
          h ← from bytes
          (item, it1) ←
              parse_kv (record it { last_header = some h; pos = u32 (last.prev + header_size) }) h
          some (some item, it1))
  ]

  unfoldable pub seek_to_last : ℕ → BlockIterator → Option (Option Item × BlockIterator)
  seek_to_last fuel it = do (items, it1) ← drain fuel it; prev it1
