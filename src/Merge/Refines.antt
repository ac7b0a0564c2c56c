-- ===== src/Merge/Refines.antt =====
-- `next` on the merge iterator is the choice of the first head among the lists of what is left.
use badger_rs.Common.{ℕ}
use badger_rs.Common.{◌≡◌, refl, sym, ◌∙◌, inl, inr, arith}
use badger_rs.Common.{Bool, true, false, none, some}
use badger_rs.Common.{List, [], ◌∷◌, map}
use badger_rs.Common.{Option-cases}
use badger_rs.Common.{none-some}
use badger_rs.Common.{get_elem?}
use badger_rs.Common.{List-cases, get_elem?-map, get_elem?_ext, length-map}
use badger_rs.Common.{get_elem?-lt, some_inj}
use badger_rs.Common.Keys.{Key}
use badger_rs.LevelHandler.Lookup.{IteratorItem}
use badger_rs.Merge.{
  Xiterator, IterRef, MergeIterator, badger_prefix, starts_with, in_front, next, _next, next_from,
  pop, pop_item_from_heap, set_iter_empty,
}
use badger_rs.Merge.Heap.{dir_cmp_refl, lookup, IsHeap, in_front_lem, All-lookup}
use badger_rs.Merge.{replace}
use badger_rs.Merge.Pick.{past_key, head_at, pick, pick-none, pick-earlier}
use badger_rs.Merge.Invariant.{Partial-first, peek_at}
use badger_rs.Merge.Move.{Holds, popped}
use badger_rs.Merge.Refill.{Lawful, Ready}
use badger_rs.Merge.Next.{past, Stepped, next_from_lem}

-- The lists after a step.
abbrev pub picked : Bool → List (List IteratorItem) → List (List IteratorItem)
picked rev ls = elim (pick rev ls) [ none ↦ ls | some a ↦ map (past_key a.0) ls ]

module _ {S : Type 0} ⦃x : Xiterator S⦄ where
  next_runs :
      (m : MergeIterator S) (r : IterRef) (h : List IterRef) (s : S)
      → Ready m
      → m.heap ≡ r ∷ h
      → get_elem? m.itrs r.index ≡ some s
      → next m ≡ next_from r (popped r h m)
  unfolding next _next pop_item_from_heap pop
  next_runs m r h s ok e here = elim (List-cases m.itrs) [
    | inl f ↦ absurd (ground (arith, f, here))
    | inr (_, _, f) ↦ ground (arith, f, e, here, ok.placed, ok.holds.flagged r.index)
  ]

  next_empty :
      (m : MergeIterator S) → Ready m → m.heap ≡ [] → next m ≡ some (none, set_iter_empty m)
  unfolding next _next pop_item_from_heap
  next_empty m ok e = elim (List-cases m.itrs) [
    | inl f ↦ ground (arith, f)
    | inr (_, _, f) ↦ ground (arith, f, e, ok.placed)
  ]

  module _ (l : Lawful x) where
    abbrev pub rests : MergeIterator S → List (List IteratorItem)
    rests m = map l.rest m.itrs

    head_at-rests : (m : MergeIterator S) (i : ℕ) → head_at i (rests m) ≡ peek_at i m.itrs
    head_at-rests m i = elim (Option-cases (get_elem? m.itrs i)) [
      | inl e ↦ ground (arith, get_elem?-map l.rest m.itrs i, e)
      | inr (s, e) ↦ ground (arith, get_elem?-map l.rest m.itrs i, e, l.peek-rest s)
    ]

    pick-first :
        (m : MergeIterator S) (r : IterRef) (h : List IterRef)
        → Holds (λ i. false) m
        → m.heap ≡ r ∷ h
        → pick m.reverse (rests m) ≡ some r.key
    pick-first m r h ok e =
        let (_, (s, here, seen)) = Partial-first ok r h e in
        let ok' : IsHeap m.reverse (r ∷ h) = rw e at ok.heap_ok in
        let self : in_front r r ≡ true =
          ground (arith, in_front_lem r r, dir_cmp_refl r.rev r.key.0) in
        pick-earlier m.reverse (rests m) r.index r.key
          (head_at-rests m r.index ∙ ground (arith, here, seen))
          (λ j b f.
            let g : lookup j (r ∷ h) ≡ some b =
              ground (arith, e, ok.filled j, head_at-rests m j, f) in
            let (t, (at, key, front)) =
              All-lookup (λ t. in_front r t ≡ true) (r ∷ h) j b (self, ok'.sorted.0) g in
            ground (arith, at, key, front, in_front_lem r t, ok'.directed.0))

    rest-past : (k : Key) (s : S) → l.rest (past k s) ≡ past_key k (l.rest s)
    rest-past k s = elim (Option-cases (x.peek s)) [
      | inl e ↦ ground (arith, e, l.peek-rest s)
      | inr (item, e) ↦ ground (arith, e, l.peek-rest s, l.next-rest s item e)
    ]

    map-past :
        (k : Key) (ss : List S) → map l.rest (map (past k) ss) ≡ map (past_key k) (map l.rest ss)
    map-past k [] = refl
    map-past k (s ∷ ss) = rw (rest-past k s, map-past k ss) refl

    -- What a step of the merge is, in terms of the lists of what is left.
    pub record NextPick (m : MergeIterator S) : Type 0 where
      pub m' : MergeIterator S
      pub runs : next m ≡ some (pick m.reverse (rests m), m')
      pub ready : Ready m'
      pub rests' : rests m' ≡ picked m.reverse (rests m)
      pub reverse : m'.reverse ≡ m.reverse

    nothing_left : (m : MergeIterator S) → Ready m → m.heap ≡ [] → pick m.reverse (rests m) ≡ none
    nothing_left m ok e =
        pick-none m.reverse (rests m) (λ i. ground (arith, head_at-rests m i, ok.holds.filled i, e))

    Stepped-NextPick :
        (m : MergeIterator S) (r : IterRef) (h : List IterRef) (s : S)
        → Ready m
        → m.heap ≡ r ∷ h
        → get_elem? m.itrs r.index ≡ some s
        → Stepped m r (next_from r (popped r h m))
        → NextPick m
    Stepped-NextPick m r h s ok e here step =
        let first = pick-first m r h ok.holds e in
        let same : step.m'.itrs ≡ map (past r.key.0) m.itrs =
          get_elem?_ext _ _ (λ i. step.moved i ∙ sym (get_elem?-map (past r.key.0) m.itrs i)) in
        record {
          m' = step.m';
          runs = rw first (next_runs m r h s ok e here ∙ step.runs);
          ready = record {
            holds = step.holds;
            few = rw (same, length-map (past r.key.0) m.itrs) ok.few;
            placed = ground (arith, step.placed, ok.few, get_elem?-lt m.itrs r.index s here);
          };
          rests' = rw (picked, first, same) (map-past r.key.0 m.itrs);
          reverse = step.reverse;
        }

    -- A step of the merge answers the first of the heads of the lists that are left, in the order
    -- of the keys and then of the iterators, and moves every list past its key; it does not panic.
    -- The state is ready, and no key of the program itself comes first.
    pub next-pick :
        (m : MergeIterator S)
        → Ready m
        → ((a : IteratorItem)
            → pick m.reverse (rests m) ≡ some a
            → starts_with a.0 badger_prefix ≡ false)
        → NextPick m
    unfolding set_iter_empty
    next-pick m ok clean = elim (List-cases m.heap) [
      | inl e ↦ record {
        m' = set_iter_empty m;
        runs = rw (nothing_left m ok e) (next_empty m ok e);
        ready = record { holds = ok.holds; few = ok.few; placed = refl };
        rests' = rw (picked, nothing_left m ok e) refl;
        reverse = refl;
      }
      | inr (r, h, e) ↦
          let (_, (s, here, _)) = Partial-first ok.holds r h e in
          Stepped-NextPick m r h s ok e here
            (next_from_lem m r h ok.holds e (clean r.key (pick-first m r h ok.holds e)))
    ]

    -- A step of the merge panics when the first of the heads is a key of the program itself; the
    -- state is ready.
    pub next-own_key :
        (m : MergeIterator S) (a : IteratorItem)
        → Ready m
        → pick m.reverse (rests m) ≡ some a
        → starts_with a.0 badger_prefix ≡ true
        → next m ≡ none
    unfolding next_from replace
    next-own_key m a ok e own = elim (List-cases m.heap) [
      | inl f ↦ absurd (none-some a (sym (nothing_left m ok f) ∙ e))
      | inr (r, h, f) ↦
          let (_, (s, here, _)) = Partial-first ok.holds r h f in
          let same : r.key ≡ a = some_inj (sym (pick-first m r h ok.holds f) ∙ e) in
          next_runs m r h s ok f here ∙ rw (same, own) refl
    ]
