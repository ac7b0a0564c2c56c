-- ===== src/Table/Block.antt =====
-- The iterator over one block (src/table/iterator.rs, `BlockIterator`). An outer `none` is a panic:
-- a slice out of range, a failed assertion or a failed `unwrap`.
use badger_rs.Common.{ℕ, zero, suc, List, ◌∷◌, ◌+◌, ◌^◌}
use badger_rs.Common.{Option, none, some}
use badger_rs.Common.{[], ◌++◌}
use badger_rs.Common.{ltb, leb, ◌==◌, if◌then◌else◌, ◌>>=◌}
use badger_rs.Common.{guard, u32}
use badger_rs.Common.{length}
use badger_rs.Common.{slice}
use badger_rs.Common.Keys.{Key}
use badger_rs.Common.Bytes.{Bytes, ByteOrder}
use badger_rs.Table.Header.{Header, header_size, is_dummy, from}
use badger_rs.Table.Builder.{is_empty, u32_max}
use badger_rs.Common.{◌>>◌}
pub mod RoundTrip
pub mod Pair
pub mod Scan
pub mod Seek

abbrev pub Item : Type 0
Item = Key × Bytes

pub record BlockIterator : Type 0 where
  pub data_bytes : Bytes
  pub pos : ℕ
  pub base_key : Key
  pub last_header : Option Header
  pub last_block : Option Item

abbrev pub new : Bytes → BlockIterator
new data_bytes = record {
  data_bytes = data_bytes;
  pos = 0;
  base_key = [];
  last_header = none;
  last_block = none;
}

unfoldable pub reset : BlockIterator → BlockIterator
reset it = record it { pos = 0; base_key = []; last_header = none; last_block = none }

-- The sum of two `u16` that passes the type's range is a panic as well.
unfoldable pub parse_kv : BlockIterator → Header → Option (Item × BlockIterator)
parse_kv it h = do
  guard (ltb (h.p_len + h.k_len) (2 ^ 16))
  shared ← slice 0 h.p_len it.base_key
  diff ← slice it.pos h.k_len it.data_bytes
  let pos = u32 (it.pos + h.k_len)
  value ← slice pos h.v_len it.data_bytes
  let item : Item = (shared ++ diff, value)
  some (item, record it { pos = u32 (pos + h.v_len); last_block = some item })

-- Populate the base key if it is not set yet.
unfoldable pub fill_base : BlockIterator → Header → Option BlockIterator
fill_base it h =
    if is_empty it.base_key
    then (do
      guard (h.p_len == 0)
      key ← slice it.pos h.k_len it.data_bytes
      some (record it { base_key = key }))
    else some it

module _ ⦃bo : ByteOrder⦄ where
  unfoldable pub next : BlockIterator → Option (Option Item × BlockIterator)
  next it = if leb (u32 (length it.data_bytes)) it.pos then some (none, it) else do
    bytes ← slice it.pos header_size it.data_bytes
    h ← from bytes
    let it1 : BlockIterator = record it { last_header = some h; pos = u32 (it.pos + header_size) }
    if is_dummy h
        then some (none, it1)
        else do it2 ← fill_base it1 h; (item, it3) ← parse_kv it2 h; some (some item, it3)

  -- `while let Some(item) = self.next()`, with the items read on the way; fuel counts the rounds.
  unfoldable pub drain : ℕ → BlockIterator → Option (List Item × BlockIterator)
  drain zero it = none
  drain (suc fuel) it = do
    (found, it') ← next it
    elim found [
      | none ↦ some ([], it')
      | some item ↦ do (items, it'') ← drain fuel it'; some (item ∷ items, it'')
    ]
