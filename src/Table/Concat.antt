-- ===== src/Table/Concat.antt =====
-- The iterator over the tables of a level, one behind the other (src/table/iterator.rs,
-- `ConcatIterator`). A table is its end keys and its iterator; the index -1 is `none`. An outer
-- `none` is a panic. Fuel is for the reading of a block.
use badger_rs.Common.{ℕ, zero, suc, ◌-◌}
use badger_rs.Common.{Bool, false, Option, none, some}
use badger_rs.Common.{List, [], ◌∷◌}
use badger_rs.Common.{ltb, ◌==◌, if◌then◌else◌, ◌>>=◌}
use badger_rs.Common.{length, get_elem?, set}
use badger_rs.Common.Keys.{Key, key_cmp}
use badger_rs.Common.Slices.{found, insert_at, binary_search_by}
use badger_rs.Common.Bytes.{ByteOrder}
use badger_rs.LevelHandler.Lookup.{IteratorItem}
use badger_rs.Table.Iterator.{IteratorImpl}
use badger_rs.Table.Iterator

pub record TableEnds : Type 0 where
  pub smallest : Key
  pub biggest : Key

pub record ConcatIterator : Type 0 where
  pub index : Option ℕ
  pub iters : List IteratorImpl
  pub tables : List TableEnds
  pub reversed : Bool
  pub init : Bool

-- `ConcatIterator::new`, with the iterators of the tables
unfoldable pub new : List TableEnds → List IteratorImpl → Bool → ConcatIterator
new tables iters reversed = record {
  index = none;
  iters = iters;
  tables = tables;
  reversed = reversed;
  init = false;
}

abbrev pub set_idx : Option ℕ → ConcatIterator → ConcatIterator
set_idx idx m = record m { index = idx }

unfoldable pub get_cur : ConcatIterator → Option IteratorImpl
get_cur m = do index ← m.index; get_elem? m.iters index

-- Where a walk starts: the first table, or the last one when it goes backwards.
abbrev pub first_index : ConcatIterator → ℕ
first_index m = if m.reversed then length m.iters - 1 else 0

unfoldable pub reset_all : List IteratorImpl → Option (List IteratorImpl)
reset_all [] = some []
reset_all (itr ∷ iters) = do itr1 ← Iterator.reset itr; rest ← reset_all iters; some (itr1 ∷ rest)

module _ ⦃bo : ByteOrder⦄ where
  -- An operation of the iterator that `index` is set to.
  abbrev pub at_iter :
      ℕ
      → ConcatIterator
      → (IteratorImpl → Option (Option IteratorItem × IteratorImpl))
      → Option (Option IteratorItem × ConcatIterator)
  at_iter index m op = do
    itr ← get_elem? m.iters index
    (item, itr1) ← op itr
    some (item, record m { index = some index; iters = set m.iters index itr1 })

  -- The loop of `next` forwards, over the tables that are left.
  unfoldable pub next_forward :
      ℕ → ℕ → ℕ → ConcatIterator → Option (Option IteratorItem × ConcatIterator)
  next_forward fuel zero index m = some (none, set_idx (some index) m)
  next_forward fuel (suc left) index m = do
    (item, m1) ← at_iter index m (Iterator.next fuel)
    elim item [ some i ↦ some (some i, m1) | none ↦ next_forward fuel left (suc index) m1 ]

  -- The loop of `next` backwards: the tables before `before`.
  unfoldable pub next_backward :
      ℕ → ℕ → ConcatIterator → Option (Option IteratorItem × ConcatIterator)
  next_backward fuel zero m = some (none, set_idx none m)
  next_backward fuel (suc index) m = do
    (item, m1) ← at_iter index m (Iterator.next fuel)
    elim item [ some i ↦ some (some i, m1) | none ↦ next_backward fuel index m1 ]

  unfoldable pub next : ℕ → ConcatIterator → Option (Option IteratorItem × ConcatIterator)
  next fuel m = if length m.iters == 0 then some (none, m) else (do
    let m1 : ConcatIterator = if m.init then m else set_idx (some (first_index m)) m
    if m1.reversed
        then elim m1.index [
          | none ↦ some (none, m1)
          | some index ↦ next_backward fuel (suc index) m1
        ]
        else elim m1.index [
          | none ↦ none
          | some index ↦ next_forward fuel (length m1.iters - index) index m1
        ])

  unfoldable pub rewind : ℕ → ConcatIterator → Option (Option IteratorItem × ConcatIterator)
  rewind fuel m = if length m.iters == 0 then some (none, m) else (do
    iters ← reset_all m.iters
    at_iter (first_index m) (record m { iters = iters }) (Iterator.rewind fuel))

  unfoldable pub seek_forward :
      ℕ → Key → ConcatIterator → Option (Option IteratorItem × ConcatIterator)
  seek_forward fuel key m = elim (binary_search_by (λ tb. key_cmp tb.biggest key) m.tables) [
    | found idx ↦ at_iter idx m (Iterator.seek_from fuel key)
    | insert_at idx ↦
        if ltb idx (length m.tables)
        then at_iter idx m (Iterator.seek_from fuel key)
        else some (none, set_idx none m)
  ]

  unfoldable pub seek_backward :
      ℕ → Key → ConcatIterator → Option (Option IteratorItem × ConcatIterator)
  seek_backward fuel key m = elim (binary_search_by (λ tb. key_cmp tb.smallest key) m.tables) [
    | found idx ↦ at_iter idx m (Iterator.seek_from fuel key)
    | insert_at zero ↦ some (none, set_idx none m)
    | insert_at (suc idx) ↦ at_iter idx m (Iterator.seek_for_prev fuel key)
  ]

  unfoldable pub seek : ℕ → Key → ConcatIterator → Option (Option IteratorItem × ConcatIterator)
  seek fuel key m =
      if length m.iters == 0
      then some (none, m)
      else if m.reversed
      then seek_backward fuel key m
      else seek_forward fuel key m

  unfoldable pub peek : ConcatIterator → Option (Option IteratorItem)
  peek m = elim (get_cur m) [ none ↦ some none | some itr ↦ Iterator.peek itr ]
