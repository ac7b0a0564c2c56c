-- ===== src/Merge/Next.antt =====
-- One step of the merge: `next` answers the first of the heads, and moves every iterator that stands
-- on its key.
use badger_rs.Common.{ℕ, suc, Ordering}
use badger_rs.Common.{◌≡◌, refl, ap, ◌∙◌, ◌≢◌, arith}
use badger_rs.Common.{Bool, true, false, Option, none, some}
use badger_rs.Common.{List, [], ◌∷◌}
use badger_rs.Common.{if◌then◌else◌}
use badger_rs.Common.{length, get_elem?, set, contains}
use badger_rs.Common.{All-weaken}
use badger_rs.Common.Keys.{Key, key_cmp_refl}
use badger_rs.LevelHandler.Lookup.{IteratorItem}
use badger_rs.Merge.{next_from, move_same, init_heap_by_indexes, replace, advance}
use badger_rs.Merge.{
  Xiterator, IterRef, MergeIterator, MergeCursor, badger_prefix, starts_with, in_front, replace,
  init_heap_by_indexes, next_from, advance,
}
use badger_rs.Merge.Heap.{dir_cmp, IsHeap, lookup-tail, in_front_lem}
use badger_rs.Merge.Pick.{has_key}
use badger_rs.Merge.Invariant.{Partial-first, peek_at}
use badger_rs.Merge.Move.{Behind, Holds, popped, MoveDone, move_same_lem, Holds-moved, snoc-Moved}
use badger_rs.Merge.Refill.{Pushed, init_heap_lem}

Behind-first :
    (rev : Bool) (r : IterRef) (h : List IterRef) → IsHeap rev (r ∷ h) → Behind rev r.key.0 h
Behind-first rev r h ok =
    All-weaken (λ t. in_front r t ≡ true) (λ t. dir_cmp rev r.key.0 t.key.0 ≢ Ordering.gt) h
      (λ t f g. ground (arith, f, g, in_front_lem r t, ok.directed.0)) ok.sorted.0

module _ {S : Type 0} ⦃x : Xiterator S⦄ where
  abbrev pub past : Key → S → S
  past k s = if has_key k (x.peek s) then (x.next s).1 else s

  -- What `next_from` did: the item is the key of the element, and the iterators that stood on that
  -- key moved.
  pub record Stepped (m : MergeIterator S) (r : IterRef)
      (run : Option (Option IteratorItem × MergeIterator S)) : Type 0 where
    pub m' : MergeIterator S
    pub runs : run ≡ some (some r.key, m')
    pub holds : Holds (λ i. false) m'
    pub placed : m'.cursor.index ≡ r.index
    pub moved :
        (i : ℕ)
        → get_elem? m'.itrs i
          ≡ elim (get_elem? m.itrs i) [ none ↦ none | some s ↦ some (past r.key.0 s) ]
    pub reverse : m'.reverse ≡ m.reverse

  -- The state in which `next_from` pops the elements with the same key.
  abbrev chosen : IterRef → List IterRef → S → MergeIterator S → MergeIterator S
  chosen r h s m = record {
    reverse = m.reverse;
    itrs = set m.itrs r.index (x.next s).1;
    cursor = record { index = r.index; cur_item = some r.key };
    heap = h;
    heap_flag = set m.heap_flag r.index false;
  }

  next_from_runs :
      (m m2 m3 : MergeIterator S) (r : IterRef) (h : List IterRef) (s : S) (stack : List ℕ)
      → get_elem? m.itrs r.index ≡ some s
      → starts_with r.key.0 badger_prefix ≡ false
      → move_same (suc (length h)) r.key.0 (r.index ∷ []) (chosen r h s m) ≡ some (stack, m2)
      → init_heap_by_indexes stack m2 ≡ some m3
      → m3.cursor ≡ record { index = r.index; cur_item = some r.key }
      → next_from r (popped r h m) ≡ some (some r.key, m3)
  unfolding next_from replace advance
  next_from_runs m m2 m3 r h s stack here clean run1 run2 c =
      rw (clean, here, run1, run2) (ap (λ t. some (MergeCursor.cur_item t, m3)) c)

  stepped :
      (m : MergeIterator S) (r : IterRef) (h : List IterRef) (s : S)
      → Holds (λ i. false) m
      → m.heap ≡ r ∷ h
      → get_elem? m.itrs r.index ≡ some s
      → starts_with r.key.0 badger_prefix ≡ false
      → (done : MoveDone (suc (length h)) r.key.0 (r.index ∷ []) m.itrs (chosen r h s m))
      → ((i : ℕ) → contains i done.stack' ≡ has_key r.key.0 (peek_at i m.itrs))
      → Pushed done.stack' done.m'
      → Stepped m r (next_from r (popped r h m))
  stepped m r h s ok e here clean done same refill = record {
    m' = refill.m';
    runs =
        next_from_runs m done.m' refill.m' r h s done.stack' here clean done.runs refill.runs
          (refill.cursor ∙ done.cursor);
    holds = refill.holds;
    placed = rw (refill.cursor, done.cursor) refl;
    moved = λ i. rw refill.itrs (ground (arith, done.moved i, same i));
    reverse = refill.reverse ∙ done.reverse;
  }

  pub next_from_lem :
      (m : MergeIterator S) (r : IterRef) (h : List IterRef)
      → Holds (λ i. false) m
      → m.heap ≡ r ∷ h
      → starts_with r.key.0 badger_prefix ≡ false
      → Stepped m r (next_from r (popped r h m))
  next_from_lem m r h ok e clean =
      let (_, (s, here, seen)) = Partial-first ok r h e in
      let ok' : IsHeap m.reverse (r ∷ h) = rw e at ok.heap_ok in
      let done =
        move_same_lem (suc (length h)) r.key.0 (r.index ∷ []) m.itrs (chosen r h s m) (omega arith)
          (Holds-moved [] m r h s ok e)
          (snoc-Moved [] m.itrs m.itrs r.index s refl here (λ i. refl)) (refl, tt)
          (Behind-first m.reverse r h ok') in
      let same : (i : ℕ) → contains i done.stack' ≡ has_key r.key.0 (peek_at i m.itrs) = λ i.
        ground (
          arith,
          done.same i,
          lookup-tail i r h ok'.distinct.0,
          ok.filled i,
          e,
          key_cmp_refl r.key.0,
        ) in
      stepped m r h s ok e here clean done same (
        init_heap_lem done.stack' done.m' done.holds done.distinct
          (λ i f. ground (arith, f, same i, done.moved i)))
