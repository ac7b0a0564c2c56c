-- ===== src/Merge.antt =====
-- The merge of several iterators (src/y/merge_iterator.rs, with the trait of src/y/iterator.rs). The
-- merged iterators are behind a trait: their operations are the interface `Xiterator`. The standard
-- library's `BinaryHeap` is a list kept in order, the greatest first. `none` is a panic: a failed
-- assertion or an index out of range.
use badger_rs.Common.{ℕ, zero, suc, ◌-◌, ◌^◌, compare, Ordering}
use badger_rs.Common.{Bool, true, false, not, ◌&&◌, Option, none, some}
use badger_rs.Common.{List, [], ◌∷◌, ◌++◌, map}
use badger_rs.Common.{◌==◌, if◌then◌else◌, ◌>>=◌, ◌>>◌}
use badger_rs.Common.{guard}
use badger_rs.Common.{length, get_elem?, set, replicate}
use badger_rs.Common.Keys.{Key, key_cmp, key_eq}
use badger_rs.Common.Slices.{insert_sorted}
pub mod Heap
pub mod Invariant
pub mod Pick
pub mod Move
pub mod Refill
pub mod Next
pub mod Refines
pub mod Ascend
pub mod Drain
pub mod Rewind
pub mod Start
use badger_rs.LevelHandler.Lookup.{IteratorItem}
use mathlib.Core.List.{reverse}

pub record Xiterator (S : Type 0) : Type 0 where
  pub next : S → Option IteratorItem × S
  pub rewind : S → Option IteratorItem × S
  pub seek : Key → S → Option IteratorItem × S
  pub peek : S → Option IteratorItem

-- `_BADGER_PREFIX`, the bytes of "!badger!"
abbrev pub badger_prefix : Key
badger_prefix = 33 ∷ 98 ∷ 97 ∷ 100 ∷ 103 ∷ 101 ∷ 114 ∷ 33 ∷ []

abbrev pub starts_with : Key → Key → Bool
starts_with key [] = true
starts_with [] (y ∷ ys) = false
starts_with (x ∷ xs) (y ∷ ys) = x == y && starts_with xs ys

-- `usize::MAX`
abbrev pub usize_max : ℕ
usize_max = 2 ^ 64 - 1

pub record MergeCursor : Type 0 where
  pub index : ℕ
  pub cur_item : Option IteratorItem

pub record IterRef : Type 0 where
  pub index : ℕ
  pub key : IteratorItem
  pub rev : Bool

-- `Ord for IterRef`
unfoldable pub cmp : IterRef → IterRef → Ordering
cmp a b =
    if key_eq a.key.0 b.key.0
    then compare b.index a.index
    else if a.rev
    then key_cmp a.key.0 b.key.0
    else key_cmp b.key.0 a.key.0

-- `a` is popped before `b`, or they are equal.
abbrev pub in_front : IterRef → IterRef → Bool
in_front a b = elim (cmp a b) [ Ordering.lt ↦ false | _ ↦ true ]

pub record MergeIterator (S : Type 0) : Type 0 where
  pub reverse : Bool
  pub itrs : List S
  pub cursor : MergeCursor
  pub heap : List IterRef
  pub heap_flag : List Bool

-- `MergeCursor::replace`
unfoldable pub replace : ℕ → Option IteratorItem → Option MergeCursor
replace index none = some (record { index = index; cur_item = none })
replace index (some item) = do
  guard (not (starts_with item.0 badger_prefix))
  some (record { index = index; cur_item = some item })

module _ {S : Type 0} where
  -- `MergeIterOverBuilder::build`
  unfoldable pub build : List S → Bool → MergeIterator S
  build all reverse = record {
    reverse = reverse;
    itrs = all;
    cursor = record { index = usize_max; cur_item = none };
    heap = [];
    heap_flag = replicate (length all) false;
  }

  -- `MergeIterator::peek`
  abbrev pub current : MergeIterator S → Option IteratorItem
  current m = m.cursor.cur_item

  unfoldable pub set_iter_empty : MergeIterator S → MergeIterator S
  set_iter_empty m = record m { cursor = record { index = 0; cur_item = none } }

  unfoldable pub reset : MergeIterator S → Option (MergeIterator S)
  reset m = do
    cursor ← replace usize_max none
    some (record m { cursor = cursor; heap = []; heap_flag = map (λ f. false) m.heap_flag })

  unfoldable pub push_item_into_heap : ℕ → IteratorItem → MergeIterator S → Option (MergeIterator S)
  push_item_into_heap index item m = do
    flag ← get_elem? m.heap_flag index
    if flag
        then some m
        else some (record m {
          heap_flag = set m.heap_flag index true;
          heap =
              insert_sorted in_front (record { index = index; key = item; rev = m.reverse }) m.heap;
        })

  -- The heap is not empty: its first element, and the iterator without it.
  unfoldable pub pop : IterRef → List IterRef → MergeIterator S → Option (MergeIterator S)
  pop r heap m = do
    _ ← get_elem? m.heap_flag r.index
    some (record m { heap = heap; heap_flag = set m.heap_flag r.index false })

  unfoldable pub pop_item_from_heap : MergeIterator S → Option (Option IterRef × MergeIterator S)
  pop_item_from_heap m = elim m.heap [
    | [] ↦ some (none, m)
    | r ∷ heap ↦ do m1 ← pop r heap m; some (some r, m1)
  ]

  module _ ⦃x : Xiterator S⦄ where
    -- `self.itrs[index].next()`
    unfoldable pub advance : ℕ → MergeIterator S → Option (MergeIterator S)
    advance index m = do
      itr ← get_elem? m.itrs index
      some (record m { itrs = set m.itrs index (x.next itr).1 })

    -- `if let Some(item) = self.itrs[index].peek()`
    unfoldable pub push_peeked : ℕ → MergeIterator S → Option (MergeIterator S)
    push_peeked index m = do
      itr ← get_elem? m.itrs index
      elim (x.peek itr) [ none ↦ some m | some item ↦ push_item_into_heap index item m ]

    unfoldable pub init_heap_by_indexes : List ℕ → MergeIterator S → Option (MergeIterator S)
    init_heap_by_indexes [] m = some m
    init_heap_by_indexes (index ∷ stack) m = do
      m1 ← push_peeked index m
      init_heap_by_indexes stack m1

    -- Pop every element with the same key as the first and move its iterator. Fuel
    -- counts the rounds.
    unfoldable pub move_same :
        ℕ → Key → List ℕ → MergeIterator S → Option (List ℕ × MergeIterator S)
    move_same zero first_key stack m = none
    move_same (suc fuel) first_key stack m = elim m.heap [
      | [] ↦ some (stack, m)
      | r ∷ heap ↦
          if key_eq r.key.0 first_key
          then (do
            m1 ← pop r heap m
            m2 ← advance r.index m1
            move_same fuel first_key (stack ++ (r.index ∷ [])) m2)
          else some (stack, m)
    ]

    -- `_next` on a heap with a first element
    unfoldable pub next_from :
        IterRef → MergeIterator S → Option (Option IteratorItem × MergeIterator S)
    next_from r m = do
      cursor ← replace r.index (some r.key)
      m1 ← advance r.index (record m { cursor = cursor })
      (stack, m2) ← move_same (suc (length m1.heap)) r.key.0 (r.index ∷ []) m1
      m3 ← init_heap_by_indexes stack m2
      some (current m3, m3)

    unfoldable pub _next : MergeIterator S → Option (Option IteratorItem × MergeIterator S)
    _next m = do
      (popped, m1) ← pop_item_from_heap m
      elim popped [ none ↦ some (none, set_iter_empty m) | some r ↦ next_from r m1 ]

    unfoldable pub next : MergeIterator S → Option (Option IteratorItem × MergeIterator S)
    next m = elim m.itrs [
      | [] ↦ some (none, set_iter_empty m)
      | itr ∷ itrs ↦ do guard (not (m.cursor.index == usize_max)); _next m
    ]

    -- The loop of `rewind` over the keys of the program itself; fuel counts the rounds.
    unfoldable pub push_first_other : ℕ → ℕ → MergeIterator S → Option (MergeIterator S)
    push_first_other zero index m = none
    push_first_other (suc fuel) index m = do
      itr ← get_elem? m.itrs index
      elim (x.peek itr) [
        | none ↦ some m
        | some item ↦
            if starts_with item.0 badger_prefix
            then (do m1 ← advance index m; push_first_other fuel index m1)
            else push_item_into_heap index item m
      ]

    unfoldable pub rewind_one : ℕ → ℕ → MergeIterator S → Option (MergeIterator S)
    rewind_one fuel index m = do
      itr ← get_elem? m.itrs index
      let rewound : Option IteratorItem × S = x.rewind itr
      let m1 : MergeIterator S = record m { itrs = set m.itrs index rewound.1 }
      elim rewound.0 [ none ↦ some m1 | some item ↦ push_first_other fuel index m1 ]

    -- The iterators from `index` on, so many of them.
    unfoldable pub rewind_all : ℕ → ℕ → ℕ → MergeIterator S → Option (MergeIterator S)
    rewind_all fuel index zero m = some m
    rewind_all fuel index (suc count) m = do
      m1 ← rewind_one fuel index m
      rewind_all fuel (suc index) count m1

    unfoldable pub rewind : ℕ → MergeIterator S → Option (Option IteratorItem × MergeIterator S)
    rewind fuel m = elim m.itrs [
      | [] ↦ some (none, set_iter_empty m)
      | itr ∷ itrs ↦ do
        m1 ← reset m
        m2 ← rewind_all fuel 0 (length m.itrs) m1
        next (set_iter_empty m2)
    ]

    unfoldable pub seek_one : Key → ℕ → MergeIterator S → Option (MergeIterator S)
    seek_one key index m = do
      itr ← get_elem? m.itrs index
      let sought : Option IteratorItem × S = x.seek key itr
      let m1 : MergeIterator S = record m { itrs = set m.itrs index sought.1 }
      elim sought.0 [ none ↦ some m1 | some item ↦ push_item_into_heap index item m1 ]

    unfoldable pub seek_all : Key → ℕ → ℕ → MergeIterator S → Option (MergeIterator S)
    seek_all key index zero m = some m
    seek_all key index (suc count) m = do
      m1 ← seek_one key index m
      seek_all key (suc index) count m1

    unfoldable pub seek : Key → MergeIterator S → Option (Option IteratorItem × MergeIterator S)
    seek key m = do m1 ← reset m; m2 ← seek_all key 0 (length m.itrs) m1; next (set_iter_empty m2)

    -- `while let Some(item) = itr.next()`, with the items on the way; fuel counts the rounds.
    unfoldable pub collect : ℕ → MergeIterator S → Option (List IteratorItem × MergeIterator S)
    collect zero m = none
    collect (suc fuel) m = do
      (item, m1) ← next m
      elim item [
        | none ↦ some ([], m1)
        | some i ↦ do (items, m2) ← collect fuel m1; some (i ∷ items, m2)
      ]

    -- Every item from `rewind` on.
    unfoldable pub drain_all : ℕ → MergeIterator S → Option (List IteratorItem × MergeIterator S)
    drain_all fuel m = do
      (item, m1) ← rewind fuel m
      elim item [
        | none ↦ some ([], m1)
        | some i ↦ do (items, m2) ← collect fuel m1; some (i ∷ items, m2)
      ]
