-- ===== src/Table/Iterator.antt =====
-- The iterator over a table (src/table/iterator.rs, `IteratorImpl`), which goes over the blocks of
-- the table. The table is its blocks, as `Table::block` reads them, and the first key of each block,
-- its block index. `none` is a panic; a failed read of a block is one as well. An item of a block
-- with a value that is no encoded `ValueStruct` is a panic. Fuel is for the reading of a block.
use badger_rs.Common.{ℕ, zero, suc, ◌-◌}
use badger_rs.Common.{Bool, not, Option, none, some}
use badger_rs.Common.{List}
use badger_rs.Common.{leb, ◌==◌, if◌then◌else◌, ◌>>=◌, ◌>>◌}
use badger_rs.Common.{guard}
use badger_rs.Common.{length, get_elem?}
use badger_rs.Common.Keys.{Key, key_cmp, key_eq}
use badger_rs.Common.Slices.{found, insert_at, binary_search_by}
use badger_rs.Common.Bytes.{Bytes, ByteOrder}
use badger_rs.Value.{ValueStruct}
use badger_rs.Value
use badger_rs.LevelHandler.Lookup.{IteratorItem}
use badger_rs.Table.Block.{Item, BlockIterator}
use badger_rs.Table.Block
use badger_rs.Table.Block.Seek.{origin}
use badger_rs.Table.Block.Seek
pub mod Scan

pub record IteratorImpl : Type 0 where
  pub blocks : List Bytes
  pub block_index : List Key
  pub bpos : ℕ
  pub bi : Option BlockIterator
  pub reversed : Bool

-- Where `reset` stands: on the last block when it goes backwards. A table without blocks is a panic
-- then.
unfoldable pub reset : IteratorImpl → Option IteratorImpl
reset m =
    if m.reversed
    then (do
      guard (not (length m.block_index == 0))
      some (record m { bpos = length m.block_index - 1; bi = none }))
    else some (record m { bpos = 0; bi = none })

-- `IteratorImpl::new`, of the table with these blocks and block index, behind the increment of the
-- table's reference count, which is the table's
unfoldable pub new : List Bytes → List Key → Bool → Option IteratorImpl
new blocks block_index reversed = reset (record {
  blocks = blocks;
  block_index = block_index;
  bpos = 0;
  bi = none;
  reversed = reversed;
})

unfoldable pub get_bi_by_bpos : ℕ → IteratorImpl → Option BlockIterator
get_bi_by_bpos bpos m = do block ← get_elem? m.blocks bpos; some (Block.new block)

unfoldable pub get_or_set_bi : ℕ → IteratorImpl → Option BlockIterator
get_or_set_bi bpos m = elim m.bi [ some it ↦ some it | none ↦ get_bi_by_bpos bpos m ]

module _ ⦃bo : ByteOrder⦄ where
  -- `IteratorItem::from`
  unfoldable pub into_item : Item → Option IteratorItem
  into_item item = do v ← Value.from item.1; some (item.0, v)

  -- The answer of a block's iterator, with that iterator in its place.
  unfoldable pub answer_of :
      IteratorImpl → Option Item × BlockIterator → Option (Option IteratorItem × IteratorImpl)
  answer_of m (none, it) = some (none, record m { bi = some it })
  answer_of m (some b_item, it) = do
    item ← into_item b_item
    some (some item, record m { bi = some it })

  unfoldable pub peek : IteratorImpl → Option (Option IteratorItem)
  peek m = elim m.bi [
    | none ↦ some none
    | some it ↦ do
      b_item ← Seek.peek it
      elim b_item [ none ↦ some none | some b ↦ do item ← into_item b; some (some item) ]
  ]

  unfoldable pub seek_to_first : IteratorImpl → Option (Option IteratorItem × IteratorImpl)
  seek_to_first m = if length m.block_index == 0 then some (none, m) else do
    it ← get_bi_by_bpos 0 m
    answer ← Seek.seek_to_first it
    answer_of (record m { bpos = 0 }) answer

  unfoldable pub seek_to_last : ℕ → IteratorImpl → Option (Option IteratorItem × IteratorImpl)
  seek_to_last fuel m = if length m.block_index == 0 then some (none, m) else do
    it ← get_bi_by_bpos (length m.block_index - 1) m
    answer ← Seek.seek_to_last fuel it
    answer_of (record m { bpos = length m.block_index - 1 }) answer

  -- One call for each block that has ended.
  unfoldable pub next_in : ℕ → IteratorImpl → Option (Option IteratorItem × IteratorImpl)
  next_in zero m = some (none, m)
  next_in (suc left) m = do
    it ← get_or_set_bi m.bpos m
    (read, it1) ← Block.next it
    elim read [
      | some b_item ↦ do item ← into_item b_item; some (some item, record m { bi = some it1 })
      | none ↦ next_in left (record m { bpos = suc m.bpos; bi = none })
    ]

  -- The calls stop at the end of the block index.
  unfoldable pub _next : IteratorImpl → Option (Option IteratorItem × IteratorImpl)
  _next m = next_in (length m.block_index - m.bpos) m

  unfoldable pub prev_in : ℕ → ℕ → IteratorImpl → Option (Option IteratorItem × IteratorImpl)
  prev_in fuel left m = elim m.bi [
    | none ↦ do it ← get_bi_by_bpos m.bpos m; answer ← Seek.seek_to_last fuel it; answer_of m answer
    | some it ↦ do
      (read, it1) ← Seek.prev it
      elim read [
        | some b_item ↦ answer_of m (some b_item, it1)
        | none ↦ elim left [
          | zero ↦ some (none, record m { bi = some it1 })
          | suc before ↦ do
            last_of ← get_bi_by_bpos before m
            answer ← Seek.seek_to_last fuel last_of
            answer_of (record m { bpos = before }) answer
        ]
      ]
  ]

  unfoldable pub prev : ℕ → IteratorImpl → Option (Option IteratorItem × IteratorImpl)
  prev fuel m = prev_in fuel m.bpos m

  unfoldable pub seek_helper :
      ℕ → ℕ → Key → IteratorImpl → Option (Option IteratorItem × IteratorImpl)
  seek_helper fuel index key m = do
    it ← get_bi_by_bpos index m
    answer ← Seek.seek fuel key origin it
    answer_of (record m { bpos = index }) answer

  -- From the origin; the two blocks that can have the key, in turn.
  unfoldable pub seek_from : ℕ → Key → IteratorImpl → Option (Option IteratorItem × IteratorImpl)
  seek_from fuel key m = do
    m1 ← reset m
    elim (binary_search_by (λ ko. key_cmp ko key) m1.block_index) [
      | found index ↦ seek_helper fuel index key m1
      | insert_at zero ↦ seek_helper fuel 0 key m1
      | insert_at (suc index) ↦ do
        (item, m2) ← seek_helper fuel index key m1
        if leb (length m1.block_index) (suc index) then some (item, m2) else elim item [
          | some i ↦ some (some i, m2)
          | none ↦ seek_helper fuel (suc index) key m2
        ]
    ]

  unfoldable pub seek_helper_rewind :
      ℕ → ℕ → Key → IteratorImpl → Option (Option IteratorItem × IteratorImpl)
  seek_helper_rewind fuel index key m = do
    it ← get_bi_by_bpos index m
    answer ← Seek.seek_rewind fuel key origin it
    answer_of (record m { bpos = index }) answer

  unfoldable pub pre_from : ℕ → Key → IteratorImpl → Option (Option IteratorItem × IteratorImpl)
  pre_from fuel key m = do
    m1 ← reset m
    elim (binary_search_by (λ ko. key_cmp ko key) m1.block_index) [
      | found index ↦ seek_helper_rewind fuel index key m1
      | insert_at zero ↦ some (none, m1)
      | insert_at (suc index) ↦ seek_helper_rewind fuel index key m1
    ]

  unfoldable pub seek_for_prev :
      ℕ → Key → IteratorImpl → Option (Option IteratorItem × IteratorImpl)
  seek_for_prev fuel key m = do
    (item, m1) ← seek_from fuel key m
    elim item [
      | some i ↦ if key_eq i.0 key then some (some i, m1) else prev fuel m1
      | none ↦ prev fuel m1
    ]

  unfoldable pub next : ℕ → IteratorImpl → Option (Option IteratorItem × IteratorImpl)
  next fuel m = if m.reversed then prev fuel m else _next m

  unfoldable pub rewind : ℕ → IteratorImpl → Option (Option IteratorItem × IteratorImpl)
  rewind fuel m = if m.reversed then seek_to_last fuel m else seek_to_first m

  unfoldable pub seek : ℕ → Key → IteratorImpl → Option (Option IteratorItem × IteratorImpl)
  seek fuel key m = if m.reversed then seek_for_prev fuel key m else seek_from fuel key m
