-- ===== src/Merge/Rewind.antt =====
-- `rewind`: every iterator goes back to its start and past the keys of the program itself.
use badger_rs.Common.{ℕ, zero, suc, ◌+◌, ◌≤◌, ◌<◌}
use badger_rs.Common.{◌≡◌, refl, sym, ap, ◌∙◌, inl, inr, arith}
use badger_rs.Common.{Bool, true, not, ◌&&◌, Option, none, some}
use badger_rs.Common.{List, [], ◌∷◌}
use badger_rs.Common.{ltb, leb, ◌==◌, if◌then◌else◌, Bool-cases, Option-cases}
use badger_rs.Common.{none-some, ==→eq}
use badger_rs.Common.{length, get_elem?, set}
use badger_rs.Common.{length-set, get_elem?-some}
use badger_rs.Common.{get-set_self, get-set_ne, set-set, set_self, get_elem?-lt}
use badger_rs.LevelHandler.Lookup.{IteratorItem}
use badger_rs.Merge.{
  Xiterator, MergeIterator, badger_prefix, starts_with, push_first_other, rewind_one, rewind_all,
}
use badger_rs.Merge.Pick.{head}
use badger_rs.Merge.Invariant.{Partial-set, Partial-skip, Partial-push, get-set}
use badger_rs.Merge.Move.{Holds, advanced, advance_lem}
use badger_rs.Merge.Refill.{Lawful, pushed, push_item_lem}

abbrev pub skip_own : List IteratorItem → List IteratorItem
skip_own [] = []
skip_own (y ∷ ys) = if starts_with y.0 badger_prefix then skip_own ys else y ∷ ys

skip_own-nothing : (items : List IteratorItem) → head items ≡ none → items ≡ skip_own items
skip_own-nothing [] e = refl
skip_own-nothing (y ∷ ys) e = absurd (none-some y (sym e))

module _ {S : Type 0} ⦃x : Xiterator S⦄ (l : Lawful x) where
  -- One iterator was put at its place, and into the heap if it has an item.
  record Positioned (q : ℕ → Bool) (j : ℕ) (items : List IteratorItem) (m : MergeIterator S)
      (run : Option (MergeIterator S)) : Type 0 where
    m' : MergeIterator S
    s' : S
    runs : run ≡ some m'
    holds : Holds q m'
    itrs : m'.itrs ≡ set m.itrs j s'
    rest' : l.rest s' ≡ items
    reverse : m'.reverse ≡ m.reverse

  module _ (j : ℕ) (p q : ℕ → Bool) (at : p j ≡ true)
      (done : (i : ℕ) → q i ≡ (p i && not (j == i))) where
    push_first_other_lem :
        (fuel : ℕ) (m : MergeIterator S) (s : S) (items : List IteratorItem)
        → Holds p m
        → get_elem? m.itrs j ≡ some s
        → l.rest s ≡ items
        → length items < fuel
        → Positioned q j (skip_own items) m (push_first_other fuel j m)
    unfolding push_first_other
    push_first_other_lem zero m s items ok here e enough = absurd (omega arith)
    push_first_other_lem (suc fuel) m s [] ok here e enough =
        let seen : x.peek s ≡ none = l.peek-rest s ∙ rw e refl in
        record {
          m' = m;
          s' = s;
          runs = rw (here, seen) refl;
          holds = Partial-skip ok j q (ground (arith, here, seen)) done;
          itrs = sym (set_self m.itrs j s here);
          rest' = e;
          reverse = refl;
        }
    push_first_other_lem (suc fuel) m s (y ∷ ys) ok here e enough =
        let seen : x.peek s ≡ some y = l.peek-rest s ∙ rw e refl in
        elim (Bool-cases (starts_with y.0 badger_prefix)) [
          | inl own ↦
              let m1 : MergeIterator S = advanced j s m in
              let again =
                push_first_other_lem fuel m1 (x.next s).1 ys (Partial-set ok j (x.next s).1 at)
                  (get-set_self m.itrs j (x.next s).1 (get_elem?-lt m.itrs j s here))
                  (l.next-rest s y seen ∙ rw e refl) (omega arith) in
              record {
                m' = again.m';
                s' = again.s';
                runs = rw (here, seen, own, advance_lem m j s here) again.runs;
                holds = again.holds;
                itrs = again.itrs ∙ set-set m.itrs j (x.next s).1 again.s';
                rest' = rw own again.rest';
                reverse = again.reverse;
              }
          | inr other ↦ record {
            m' = pushed j y m;
            s' = s;
            runs = rw (here, seen, other) (push_item_lem p m j y s ok at here);
            holds = Partial-push ok j y q at (ground (arith, here, seen)) done;
            itrs = sym (set_self m.itrs j s here);
            rest' = rw other e;
            reverse = refl;
          }
        ]

    rewind_one_lem :
        (fuel : ℕ) (m : MergeIterator S) (s : S)
        → Holds p m
        → get_elem? m.itrs j ≡ some s
        → length (l.rest (x.rewind s).1) < fuel
        → Positioned q j (skip_own (l.rest (x.rewind s).1)) m (rewind_one fuel j m)
    unfolding rewind_one
    rewind_one_lem fuel m s ok here enough =
        let s1 : S = (x.rewind s).1 in
        let m1 : MergeIterator S = record m { itrs = set m.itrs j s1 } in
        let ok1 : Holds p m1 = Partial-set ok j s1 at in
        let here1 : get_elem? m1.itrs j ≡ some s1 =
          get-set_self m.itrs j s1 (get_elem?-lt m.itrs j s here) in
        elim (Option-cases (x.rewind s).0) [
          | inl e ↦ record {
            m' = m1;
            s' = s1;
            runs = rw (here, e) refl;
            holds = Partial-skip ok1 j q (ground (arith, here1, e, l.rewind-peek s)) done;
            itrs = refl;
            rest' = skip_own-nothing _ (sym (sym e ∙ l.rewind-peek s ∙ l.peek-rest (x.rewind s).1));
            reverse = refl;
          }
          | inr (item, e) ↦
              let put = push_first_other_lem fuel m1 s1 (l.rest s1) ok1 here1 refl enough in
              record {
                m' = put.m';
                s' = put.s';
                runs = rw (here, e) put.runs;
                holds = put.holds;
                itrs = put.itrs ∙ set-set m.itrs j s1 put.s';
                rest' = put.rest';
                reverse = put.reverse;
              }
        ]

  -- What an iterator has left after `rewind`.
  abbrev pub rewound : S → List IteratorItem
  rewound s = skip_own (l.rest (x.rewind s).1)

  abbrev pub rest_at : ℕ → List S → Option (List IteratorItem)
  rest_at i itrs = elim (get_elem? itrs i) [ none ↦ none | some s ↦ some (l.rest s) ]

  -- The lists when the iterators of an interval are rewound.
  abbrev pub between : ℕ → ℕ → ℕ → List S → Option (List IteratorItem)
  between from to i itrs = elim (get_elem? itrs i) [
    | none ↦ none
    | some s ↦ some (if leb from i && ltb i to then rewound s else l.rest s)
  ]

  pub record Rewound (from to : ℕ) (m : MergeIterator S) (run : Option (MergeIterator S))
      : Type 0 where
    pub m' : MergeIterator S
    pub runs : run ≡ some m'
    pub holds : Holds (λ i. leb to i) m'
    pub lists : (i : ℕ) → rest_at i m'.itrs ≡ between from to i m.itrs
    pub same_length : length m'.itrs ≡ length m.itrs
    pub reverse : m'.reverse ≡ m.reverse

  pub rewind_all_lem :
      (fuel index count : ℕ) (m : MergeIterator S)
      → Holds (λ i. leb index i) m
      → index + count ≡ length m.itrs
      → ((i : ℕ) (s : S)
          → index ≤ i
          → get_elem? m.itrs i ≡ some s
          → length (l.rest (x.rewind s).1) < fuel)
      → Rewound index (index + count) m (rewind_all fuel index count m)
  unfolding rewind_all
  rewind_all_lem fuel index zero m ok e enough =
      let z : index + 0 ≡ index = omega arith in
      record {
        m' = m;
        runs = refl;
        holds = rw z ok;
        lists = λ i. rw z (ground arith);
        same_length = refl;
        reverse = refl;
      }
  rewind_all_lem fuel index (suc count) m ok e enough =
      let (s, here) = get_elem?-some m.itrs index (omega arith) in
      let one =
        rewind_one_lem index (λ i. leb index i) (λ i. leb (suc index) i) (ground arith)
          (λ i. ground arith) fuel m s ok here (enough index s (omega arith) here) in
      let sum : index + suc count ≡ suc index + count = omega arith in
      let others : (i : ℕ) (t : S)
          → suc index ≤ i
          → get_elem? one.m'.itrs i ≡ some t
          → length (l.rest (x.rewind t).1) < fuel =
        λ i t above at. enough i t (omega arith) (
          sym (get-set_ne m.itrs index i one.s' (omega arith))
          ∙ ap (λ u. get_elem? u i) (sym one.itrs)
          ∙ at) in
      let rest =
        rewind_all_lem fuel (suc index) count one.m' one.holds
          (rw (one.itrs, length-set m.itrs index one.s') (omega arith)) others in
      rw sum (record {
        m' = rest.m';
        runs = rw one.runs rest.runs;
        holds = rest.holds;
        lists = λ i.
            rest.lists i
            ∙ rw one.itrs
                (ground (arith, get-set m.itrs index i one.s', one.rest', here, ==→eq index i));
        same_length = rest.same_length ∙ rw one.itrs (length-set m.itrs index one.s');
        reverse = rest.reverse ∙ one.reverse;
      })
