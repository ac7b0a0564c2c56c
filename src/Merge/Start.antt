-- ===== src/Merge/Start.antt =====
-- The merge from `rewind` on: what it answers, whatever state the iterators were in before.
use badger_rs.Common.{ℕ, zero, suc, ◌+◌, ◌≤◌, ◌<◌}
use badger_rs.Common.{◌≡◌, refl, ◌∙◌, ◌≢◌, inl, inr, arith}
use badger_rs.Common.{Bool, false, none, some}
use badger_rs.Common.{List, [], ◌∷◌, map}
use badger_rs.Common.{leb, Bool-cases, Option-cases}
use badger_rs.Common.{length, get_elem?, All}
use badger_rs.Common.{List-cases, get_elem?-map, get_elem?-past, get_elem?_ext}
use badger_rs.Common.{get_elem?-lt, All-get}
use badger_rs.Common.Keys.{Key}
use badger_rs.LevelHandler.Lookup.{IteratorItem}
use badger_rs.Merge.{
  Xiterator, MergeIterator, usize_max, rewind, rewind_all, reset, replace, next, set_iter_empty,
  collect, drain_all,
}
use badger_rs.Merge.Move.{Holds}
use badger_rs.Merge.Refill.{Lawful, Ready}
use badger_rs.Merge.Refines.{rests}
use badger_rs.Merge.Ascend.{Ascends, AllItems, total, find_key, first_find}
use badger_rs.Merge.Drain.{Other, Merged, collect-Merged}
use badger_rs.Merge.Rewind.{rewound, rest_at, between, rewind_all_lem}

cleared :
    {A : Type 0} (flags : List Bool) (itrs : List A)
    → length flags ≡ length itrs
    → (i : ℕ)
    → get_elem? (map (λ f. false) flags) i
      ≡ elim (get_elem? itrs i) [ none ↦ none | some s ↦ some false ]
cleared [] [] e i = refl
cleared [] (s ∷ itrs) e i = absurd (omega arith)
cleared (f ∷ flags) [] e i = absurd (omega arith)
cleared (f ∷ flags) (s ∷ itrs) e zero = refl
cleared (f ∷ flags) (s ∷ itrs) e (suc i) = cleared flags itrs (omega arith) i

module _ {S : Type 0} ⦃x : Xiterator S⦄ where
  abbrev fresh : MergeIterator S → MergeIterator S
  fresh m = record {
    reverse = m.reverse;
    itrs = m.itrs;
    cursor = record { index = usize_max; cur_item = none };
    heap = [];
    heap_flag = map (λ f. false) m.heap_flag;
  }

  reset_lem : (m : MergeIterator S) → reset m ≡ some (fresh m)
  unfolding reset replace
  reset_lem m = refl

  rewind_runs :
      (fuel : ℕ) (m m2 : MergeIterator S)
      → m.itrs ≢ []
      → rewind_all fuel 0 (length m.itrs) (fresh m) ≡ some m2
      → rewind fuel m ≡ next (set_iter_empty m2)
  unfolding rewind
  rewind_runs fuel m m2 nonempty e = elim (List-cases m.itrs) [
    | inl f ↦ absurd (nonempty f)
    | inr (_, _, f) ↦ ground (arith, f, e, reset_lem m)
  ]

  fresh-Holds :
      (m : MergeIterator S) → length m.heap_flag ≡ length m.itrs → Holds (λ i. leb 0 i) (fresh m)
  fresh-Holds m e = record {
    heap_ok = record { distinct = tt; sorted = tt; directed = tt };
    flagged = cleared m.heap_flag m.itrs e;
    filled = λ i. ground arith;
  }

  -- When every place is done, nothing is pending.
  all_done :
      (n : ℕ) (m : MergeIterator S)
      → Holds (λ i. leb n i) m
      → length m.itrs ≤ n
      → Holds (λ i. false) m
  all_done n m ok e = record {
    heap_ok = ok.heap_ok;
    flagged = ok.flagged;
    filled = λ i. elim (Bool-cases (leb n i)) [
      | inl f ↦ ok.filled i ∙ ground (arith, f, get_elem?-past m.itrs i (ground (arith, e, f)))
      | inr f ↦ ok.filled i ∙ rw f refl
    ];
  }

  module _ (l : Lawful x) where
    pub record Prepared (fuel : ℕ) (m : MergeIterator S) : Type 0 where
      pub p : MergeIterator S
      pub runs : rewind fuel m ≡ next p
      pub ready : Ready p
      pub lists : rests l p ≡ map (rewound l) m.itrs
      pub reverse : p.reverse ≡ m.reverse

    -- The lists after all iterators are rewound.
    all_between :
        (m : MergeIterator S) (itrs : List S)
        → length itrs ≡ length m.itrs
        → ((i : ℕ) → rest_at l i itrs ≡ between l 0 (0 + length m.itrs) i m.itrs)
        → map l.rest itrs ≡ map (rewound l) m.itrs
    all_between m itrs e h = get_elem?_ext _ _ (λ i. elim (Option-cases (get_elem? m.itrs i)) [
      | inl f ↦
          ground (arith, f, h i, get_elem?-map l.rest itrs i, get_elem?-map (rewound l) m.itrs i)
      | inr (s, f) ↦ ground (
        arith,
        f,
        h i,
        get_elem?-map l.rest itrs i,
        get_elem?-map (rewound l) m.itrs i,
        get_elem?-lt m.itrs i s f,
      )
    ])

    -- `rewind` is `next` on a ready state in which every iterator stands at the first item from its
    -- start that is no key of the program itself. There is an iterator, and the flags are as many.
    pub rewind-Prepared :
        (fuel : ℕ) (m : MergeIterator S)
        → m.itrs ≢ []
        → length m.heap_flag ≡ length m.itrs
        → length m.itrs < usize_max
        → All (λ s. length (l.rest (x.rewind s).1) < fuel) m.itrs
        → Prepared fuel m
    unfolding set_iter_empty
    rewind-Prepared fuel m nonempty e few enough =
        let done =
          rewind_all_lem l fuel 0 (length m.itrs) (fresh m) (fresh-Holds m e) (omega arith)
            (λ i s above at.
              All-get (λ s. length (l.rest (x.rewind s).1) < fuel) m.itrs i s enough at) in
        record {
          p = set_iter_empty done.m';
          runs = rewind_runs fuel m done.m' nonempty done.runs;
          ready = record {
            holds =
                all_done (0 + length m.itrs) done.m' done.holds (omega (arith, done.same_length));
            few = rw done.same_length few;
            placed = refl;
          };
          lists = all_between m done.m'.itrs done.same_length done.lists;
          reverse = done.reverse;
        }

    pub record Drained (fuel : ℕ) (m : MergeIterator S) : Type 0 where
      pub items : List IteratorItem
      pub m' : MergeIterator S
      pub runs : drain_all fuel m ≡ some (items, m')
      pub ascends : Ascends m.reverse items
      pub finds : (k : Key) → find_key k items ≡ first_find k (map (rewound l) m.itrs)

    drain-Prepared :
        (fuel : ℕ) (m : MergeIterator S)
        → (prep : Prepared fuel m) → Merged l (suc fuel) prep.p
        → Drained fuel m
    unfolding drain_all collect
    drain-Prepared fuel m prep all = record {
      items = all.items;
      m' = all.m';
      runs = rw prep.runs all.runs;
      ascends = rw prep.reverse at all.ascends;
      finds = λ k. all.finds k ∙ rw prep.lists refl;
    }

    -- Draining the merge from `rewind` on ends without a panic and gives items in strict order, for
    -- each key the item of the first iterator that has the key from its start on, and no other. The
    -- iterators are in strict order from their start on, and have keys of the program itself in
    -- front only; there is an iterator, and the flags are as many.
    pub drain_all-Drained :
        (fuel : ℕ) (m : MergeIterator S)
        → m.itrs ≢ []
        → length m.heap_flag ≡ length m.itrs
        → length m.itrs < usize_max
        → All (λ s. length (l.rest (x.rewind s).1) < fuel) m.itrs
        → All (Ascends m.reverse) (map (rewound l) m.itrs)
        → AllItems Other (map (rewound l) m.itrs)
        → total (map (rewound l) m.itrs) ≤ fuel
        → Drained fuel m
    drain_all-Drained fuel m nonempty e few short o c enough =
        let prep = rewind-Prepared fuel m nonempty e few short in
        drain-Prepared fuel m prep (
          collect-Merged l (suc fuel) prep.p prep.ready (rw (prep.lists, prep.reverse) o)
            (rw prep.lists c) (rw prep.lists (omega arith)))
