-- ===== src/Merge/Move.antt =====
-- Popping the elements that have the key of the first, and moving their iterators.
use badger_rs.Merge.Heap.{dir_cmp_trans}
use badger_rs.Merge.Heap.{dir_cmp_refl}
use badger_rs.Merge.Heap.{dir_cmp_eq}
use badger_rs.Merge.Heap.{in_front_lem}
use badger_rs.Merge.Heap.{lookup-tail}
use badger_rs.Merge.Heap.{IsHeap}
use badger_rs.Merge.Heap.{dir_cmp}
use badger_rs.Merge.Heap.{lookup}
use badger_rs.Merge.Heap.{All-lookup}
use badger_rs.Common.{ℕ, zero, suc, ◌<◌, Ordering}
use badger_rs.Common.{◌≡◌, refl, ◌∙◌, ◌≢◌, inl, inr, arith}
use badger_rs.Common.{Bool, true, false, ◌||◌, none, some}
use badger_rs.Common.{List, [], ◌∷◌, ◌++◌}
use badger_rs.Common.{◌==◌, if◌then◌else◌, Bool-cases, Option-cases, Ordering-cases}
use badger_rs.Common.{==→eq}
use badger_rs.Common.{length, get_elem?, set, contains, All}
use badger_rs.Common.{List-cases}
use badger_rs.Common.Keys.{Key, key_eq, key_cmp_refl, key_cmp_eq}
use badger_rs.Merge.{Xiterator, IterRef, MergeIterator, in_front, pop, advance, move_same}
use badger_rs.Merge.Pick.{has_key}
use badger_rs.Merge.Invariant.{Partial, Partial-set, Partial-pop, Partial-first, get-set}

-- No index stands twice.
abbrev pub Distinct : List ℕ → Type 0
Distinct [] = Unit
Distinct (i ∷ is) = (contains i is ≡ false) × Distinct is

pub contains-snoc :
    (i j : ℕ) (is : List ℕ) → contains i (is ++ (j ∷ [])) ≡ (contains i is || i == j)
contains-snoc i j [] = ground arith
contains-snoc i j (k ∷ is) = ground (arith, contains-snoc i j is)

pub snoc-Distinct :
    (j : ℕ) (is : List ℕ) → contains j is ≡ false → Distinct is → Distinct (is ++ (j ∷ []))
snoc-Distinct j [] e d = (refl, tt)
snoc-Distinct j (i ∷ is) e d =
    (ground (arith, contains-snoc i j is, d.0), snoc-Distinct j is (ground arith) d.1)

-- The keys of a heap whose first element is past a key are all past it.
past_first :
    (rev : Bool) (k : Key) (r : IterRef) (h : List IterRef)
    → IsHeap rev (r ∷ h)
    → dir_cmp rev k r.key.0 ≡ Ordering.lt
    → (i : ℕ) → has_key k (lookup i (r ∷ h)) ≡ false
past_first rev k r h ok e i = elim (Option-cases (lookup i (r ∷ h))) [
  | inl n ↦ rw n refl
  | inr (item, n) ↦
      let self : in_front r r ≡ true =
        ground (arith, in_front_lem r r, dir_cmp_refl r.rev r.key.0) in
      let (t, (_, key, front)) =
        All-lookup (λ t. in_front r t ≡ true) (r ∷ h) i item (self, ok.sorted.0) n in
      rw (n, ← key)
        (ground (
          arith,
          front,
          in_front_lem r t,
          ok.directed.0,
          e,
          dir_cmp_eq rev r.key.0 t.key.0,
          dir_cmp_trans rev k r.key.0 t.key.0,
          dir_cmp_refl rev k,
          key_cmp_eq t.key.0 k,
        ))
]

ahead_lem :
    (rev : Bool) (k l : Key)
    → dir_cmp rev k l ≢ Ordering.gt
    → key_eq l k ≡ false
    → dir_cmp rev k l ≡ Ordering.lt
ahead_lem rev k l h f = elim (Ordering-cases (dir_cmp rev k l)) [
  | inl o ↦ o
  | inr (inl o) ↦ absurd (ground (arith, f, dir_cmp_eq rev k l o, key_cmp_refl l))
  | inr (inr o) ↦ absurd (h o)
]

-- No element of the heap is in front of a key.
abbrev pub Behind : Bool → Key → List IterRef → Type 0
Behind rev k h = All (λ (r : IterRef). dir_cmp rev k r.key.0 ≢ Ordering.gt) h

module _ {S : Type 0} ⦃x : Xiterator S⦄ where
  abbrev pub Holds : (ℕ → Bool) → MergeIterator S → Type 0
  Holds pending m = Partial pending m.reverse m.itrs m.heap m.heap_flag

  -- The iterators of the stack have moved, the others have not.
  abbrev pub Moved : List ℕ → List S → List S → Type 0
  Moved stack before after =
      (i : ℕ)
      → get_elem? after i ≡ (
          if contains i stack
          then elim (get_elem? before i) [ none ↦ none | some s ↦ some (x.next s).1 ]
          else get_elem? before i)

  abbrev pub popped : IterRef → List IterRef → MergeIterator S → MergeIterator S
  popped r h m = record m { heap = h; heap_flag = set m.heap_flag r.index false }

  abbrev pub advanced : ℕ → S → MergeIterator S → MergeIterator S
  advanced i s m = record m { itrs = set m.itrs i (x.next s).1 }

  pub pop_lem :
      (p : ℕ → Bool) (m : MergeIterator S) (r : IterRef) (h : List IterRef) (s : S)
      → Holds p m
      → get_elem? m.itrs r.index ≡ some s
      → pop r h m ≡ some (popped r h m)
  unfolding pop
  pop_lem p m r h s ok e = rw (ok.flagged r.index, e) refl

  pub advance_lem :
      (m : MergeIterator S) (i : ℕ) (s : S)
      → get_elem? m.itrs i ≡ some s
      → advance i m ≡ some (advanced i s m)
  unfolding advance
  advance_lem m i s e = rw e refl

  pub snoc-Moved :
      (stack : List ℕ) (before after : List S) (j : ℕ) (s : S)
      → contains j stack ≡ false
      → get_elem? after j ≡ some s
      → Moved stack before after
      → Moved (stack ++ (j ∷ [])) before (set after j (x.next s).1)
  snoc-Moved stack before after j s e g m i = ground (
    arith,
    m i,
    m j,
    g,
    e,
    contains-snoc i j stack,
    get-set after j i (x.next s).1,
    ==→eq j i,
    ==→eq i j,
  )

  -- The element that stands first is popped and its iterator moved.
  pub Holds-moved :
      (stack : List ℕ) (m : MergeIterator S) (r : IterRef) (h : List IterRef) (s : S)
      → Holds (λ i. contains i stack) m
      → m.heap ≡ r ∷ h
      → Holds (λ i. contains i (stack ++ (r.index ∷ []))) (advanced r.index s (popped r h m))
  Holds-moved stack m r h s ok e =
      let q : (i : ℕ) → contains i (stack ++ (r.index ∷ [])) ≡ (contains i stack || r.index == i) =
        λ i. ground (arith, contains-snoc i r.index stack) in
      Partial-set (Partial-pop ok r h (λ i. contains i (stack ++ (r.index ∷ []))) e q) r.index
        (x.next s).1 (ground (arith, q r.index))

  pub record MoveDone (fuel : ℕ) (k : Key) (stack : List ℕ) (before : List S) (m : MergeIterator S)
      : Type 0 where
    pub stack' : List ℕ
    pub m' : MergeIterator S
    pub runs : move_same fuel k stack m ≡ some (stack', m')
    pub holds : Holds (λ i. contains i stack') m'
    pub moved : Moved stack' before m'.itrs
    pub same : (i : ℕ) → contains i stack' ≡ (contains i stack || has_key k (lookup i m.heap))
    pub distinct : Distinct stack'
    pub cursor : m'.cursor ≡ m.cursor
    pub reverse : m'.reverse ≡ m.reverse

  move_step :
      (fuel : ℕ) (k : Key) (stack : List ℕ) (m : MergeIterator S) (r : IterRef) (h : List IterRef)
      (s : S)
      → Holds (λ i. contains i stack) m
      → m.heap ≡ r ∷ h
      → get_elem? m.itrs r.index ≡ some s
      → key_eq r.key.0 k ≡ true
      → move_same (suc fuel) k stack m
        ≡ move_same fuel k (stack ++ (r.index ∷ [])) (advanced r.index s (popped r h m))
  unfolding move_same pop advance
  move_step fuel k stack m r h s ok e here f =
      rw (e, f, ok.flagged r.index, here, advance_lem (popped r h m) r.index s here) refl

  -- The loop ends with every iterator moved whose element has the key.
  pub move_same_lem :
      (fuel : ℕ) (k : Key) (stack : List ℕ) (before : List S) (m : MergeIterator S)
      → length m.heap < fuel
      → Holds (λ i. contains i stack) m
      → Moved stack before m.itrs
      → Distinct stack
      → Behind m.reverse k m.heap
      → MoveDone fuel k stack before m
  unfolding move_same
  move_same_lem zero k stack before m enough ok mv d b = absurd (omega arith)
  move_same_lem (suc fuel) k stack before m enough ok mv d b = elim (List-cases m.heap) [
    | inl e ↦ record {
      stack' = stack;
      m' = m;
      runs = rw e refl;
      holds = ok;
      moved = mv;
      same = λ i. rw e (ground arith);
      distinct = d;
      cursor = refl;
      reverse = refl;
    }
    | inr (r, h, e) ↦
        let (free, (s, here, _)) = Partial-first ok r h e in
        let behind : Behind m.reverse k (r ∷ h) = rw e at b in
        let ok' : IsHeap m.reverse (r ∷ h) = rw e at ok.heap_ok in
        elim (Bool-cases (key_eq r.key.0 k)) [
          | inl f ↦
              let rest =
                move_same_lem fuel k (stack ++ (r.index ∷ [])) before
                  (advanced r.index s (popped r h m)) (ground (arith, e, enough))
                  (Holds-moved stack m r h s ok e)
                  (snoc-Moved stack before m.itrs r.index s free here mv)
                  (snoc-Distinct r.index stack free d) behind.1 in
              record {
                stack' = rest.stack';
                m' = rest.m';
                runs = move_step fuel k stack m r h s ok e here f ∙ rest.runs;
                holds = rest.holds;
                moved = rest.moved;
                same = λ i. rw e (
                    ground (
                      arith,
                      rest.same i,
                      contains-snoc i r.index stack,
                      lookup-tail i r h ok'.distinct.0,
                      f,
                    ));
                distinct = rest.distinct;
                cursor = rest.cursor;
                reverse = rest.reverse;
              }
          | inr f ↦ record {
            stack' = stack;
            m' = m;
            runs = rw (e, f) refl;
            holds = ok;
            moved = mv;
            same = λ i. rw e (
                ground (
                  arith,
                  past_first m.reverse k r h ok' (ahead_lem m.reverse k r.key.0 behind.0 f) i,
                ));
            distinct = d;
            cursor = refl;
            reverse = refl;
          }
        ]
  ]
