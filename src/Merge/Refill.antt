-- ===== src/Merge/Refill.antt =====
-- The laws of the merged iterators, and pushing the moved iterators back into the heap.
use badger_rs.Common.{ℕ, ◌<◌}
use badger_rs.Common.{◌≡◌, refl, inl, inr, arith}
use badger_rs.Common.{Bool, true, false, not, ◌&&◌, none, some}
use badger_rs.Common.{List, [], ◌∷◌}
use badger_rs.Common.{◌==◌, Option-cases}
use badger_rs.Common.{==→eq}
use badger_rs.Common.{length, get_elem?, set, contains}
use badger_rs.Common.Keys.{Key}
use badger_rs.Common.Slices.{insert_sorted}
use badger_rs.Common.Maps.{is_some}
use badger_rs.LevelHandler.Lookup.{IteratorItem}
use badger_rs.Merge.{
  Xiterator, MergeIterator, usize_max, in_front, push_peeked, push_item_into_heap,
  init_heap_by_indexes,
}
use badger_rs.Merge.Heap.{lookup}
use badger_rs.Merge.Pick.{head, tail}
use badger_rs.Merge.Invariant.{Partial-skip, Partial-push}
use badger_rs.Merge.Move.{Distinct, Holds}

-- The iterators behind the trait, as their users see them: an iterator that stands on an item has a
-- list of items before it, and moves along that list.
pub record Lawful {S : Type 0} (x : Xiterator S) : Type 0 where
  pub rest : S → List IteratorItem
  pub peek-rest : (s : S) → x.peek s ≡ head (rest s)
  pub next-rest :
      (s : S) (item : IteratorItem) → x.peek s ≡ some item → rest (x.next s).1 ≡ tail (rest s)
  pub rewind-peek : (s : S) → (x.rewind s).0 ≡ x.peek (x.rewind s).1
  pub seek-peek : (key : Key) (s : S) → (x.seek key s).0 ≡ x.peek (x.seek key s).1

module _ {S : Type 0} ⦃x : Xiterator S⦄ where
  pub record Pushed (stack : List ℕ) (m : MergeIterator S) : Type 0 where
    pub m' : MergeIterator S
    pub runs : init_heap_by_indexes stack m ≡ some m'
    pub holds : Holds (λ i. false) m'
    pub itrs : m'.itrs ≡ m.itrs
    pub cursor : m'.cursor ≡ m.cursor
    pub reverse : m'.reverse ≡ m.reverse

  abbrev pub pushed : ℕ → IteratorItem → MergeIterator S → MergeIterator S
  pushed j item m = record m {
    heap_flag = set m.heap_flag j true;
    heap = insert_sorted in_front (record { index = j; key = item; rev = m.reverse }) m.heap;
  }

  pub push_item_lem :
      (p : ℕ → Bool) (m : MergeIterator S) (j : ℕ) (item : IteratorItem) (s : S)
      → Holds p m
      → p j ≡ true
      → get_elem? m.itrs j ≡ some s
      → push_item_into_heap j item m ≡ some (pushed j item m)
  unfolding push_item_into_heap
  push_item_lem p m j item s ok e here =
      let free : lookup j m.heap ≡ none = ground (arith, ok.filled j, e) in
      rw (ok.flagged j, here, free) refl

  pub init_heap_lem :
      (stack : List ℕ) (m : MergeIterator S)
      → Holds (λ i. contains i stack) m
      → Distinct stack
      → ((i : ℕ) → contains i stack ≡ true → is_some (get_elem? m.itrs i) ≡ true)
      → Pushed stack m
  unfolding init_heap_by_indexes push_peeked
  init_heap_lem [] m ok d inside = record {
    m' = m;
    runs = refl;
    holds = ok;
    itrs = refl;
    cursor = refl;
    reverse = refl;
  }
  init_heap_lem (j ∷ stack) m ok d inside =
      let now : (i : ℕ) → contains i stack ≡ (contains i (j ∷ stack) && not (j == i)) =
        λ i. ground (arith, d.0, ==→eq j i) in
      let later : (i : ℕ) → contains i stack ≡ true → contains i (j ∷ stack) ≡ true =
        λ i e. ground (arith, e) in
      elim (Option-cases (get_elem? m.itrs j)) [
        | inl e ↦ absurd (ground (arith, e, inside j (ground arith)))
        | inr (s, e) ↦ elim (Option-cases (x.peek s)) [
          | inl f ↦
              let rest =
                init_heap_lem stack m
                  (Partial-skip ok j (λ i. contains i stack) (ground (arith, e, f)) now) d.1
                  (λ i h. inside i (later i h)) in
              record {
                m' = rest.m';
                runs = rw (e, f) rest.runs;
                holds = rest.holds;
                itrs = rest.itrs;
                cursor = rest.cursor;
                reverse = rest.reverse;
              }
          | inr (item, f) ↦
              let rest =
                init_heap_lem stack (pushed j item m)
                  (Partial-push ok j item (λ i. contains i stack) (ground arith)
                    (ground (arith, e, f)) now)
                  d.1 (λ i h. inside i (later i h)) in
              record {
                m' = rest.m';
                runs =
                    rw
                      (
                        e,
                        f,
                        push_item_lem (λ i. contains i (j ∷ stack)) m j item s ok (ground arith) e,
                      )
                      rest.runs;
                holds = rest.holds;
                itrs = rest.itrs;
                cursor = rest.cursor;
                reverse = rest.reverse;
              }
        ]
      ]

  -- Every iterator with a current item has it in the heap, and the cursor is set.
  pub record Ready (m : MergeIterator S) : Type 0 where
    pub holds : Holds (λ i. false) m
    pub few : length m.itrs < usize_max
    pub placed : (m.cursor.index == usize_max) ≡ false
