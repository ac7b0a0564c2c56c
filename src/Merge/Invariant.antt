-- ===== src/Merge/Invariant.antt =====
-- What the heap and the flags of the merge iterator hold: one element for each iterator that has a
-- current item, but for the iterators that are pending.
use badger_rs.Common.{ℕ, zero, suc}
use badger_rs.Common.{◌≡◌, refl, ap, ◌∙◌, inl, inr, arith}
use badger_rs.Common.{Bool, true, false, not, ◌&&◌, ◌||◌, Option, none, some}
use badger_rs.Common.{List, [], ◌∷◌}
use badger_rs.Common.{◌==◌, if◌then◌else◌, Bool-cases, Option-cases}
use badger_rs.Common.{==→eq}
use badger_rs.Common.{get_elem?, set}
use badger_rs.Common.Maps.{is_some}
use badger_rs.LevelHandler.Lookup.{IteratorItem}
use badger_rs.Merge.{Xiterator, IterRef}
use badger_rs.Merge.Heap.{lookup, IsHeap, push, lookup-push, push-IsHeap, tail-IsHeap, lookup-tail}

pub get-set {ℓ} :
    {A : Type ℓ} (xs : List A) (i j : ℕ) (v : A)
    → get_elem? (set xs i v) j
      ≡ (if i == j then elim (get_elem? xs j) [ none ↦ none | some w ↦ some v ] else get_elem? xs j)
get-set [] i j v = ground arith
get-set (x ∷ xs) zero zero v = refl
get-set (x ∷ xs) zero (suc j) v = ground arith
get-set (x ∷ xs) (suc i) zero v = ground arith
get-set (x ∷ xs) (suc i) (suc j) v = ground (arith, get-set xs i j v)

module _ {S : Type 0} ⦃x : Xiterator S⦄ where
  abbrev pub peek_at : ℕ → List S → Option IteratorItem
  peek_at i itrs = elim (get_elem? itrs i) [ none ↦ none | some s ↦ x.peek s ]

  pub record Partial (pending : ℕ → Bool) (rev : Bool) (itrs : List S) (heap : List IterRef)
      (flags : List Bool) : Type 0 where
    pub heap_ok : IsHeap rev heap
    pub flagged :
        (i : ℕ)
        → get_elem? flags i
          ≡ elim (get_elem? itrs i) [ none ↦ none | some s ↦ some (is_some (lookup i heap)) ]
    pub filled : (i : ℕ) → lookup i heap ≡ (if pending i then none else peek_at i itrs)

  module _ {p : ℕ → Bool} {rev : Bool} {itrs : List S} {heap : List IterRef} {flags : List Bool}
      (ok : Partial p rev itrs heap flags) where
    -- An iterator that is pending may move.
    pub Partial-set : (j : ℕ) (s : S) → p j ≡ true → Partial p rev (set itrs j s) heap flags
    Partial-set j s e = record {
      heap_ok = ok.heap_ok;
      flagged = λ i. ground (arith, ok.flagged i, get-set itrs j i s);
      filled = λ i. ground (arith, e, ok.filled i, get-set itrs j i s, ==→eq j i);
    }

    -- An iterator without a current item needs no element.
    pub Partial-skip :
        (j : ℕ) (q : ℕ → Bool)
        → peek_at j itrs ≡ none
        → ((i : ℕ) → q i ≡ (p i && not (j == i)))
        → Partial q rev itrs heap flags
    Partial-skip j q e h = record {
      heap_ok = ok.heap_ok;
      flagged = ok.flagged;
      filled = λ i. ok.filled i ∙ rw (h i) (ground (arith, e));
    }

    pub Partial-push :
        (j : ℕ) (item : IteratorItem) (q : ℕ → Bool)
        → p j ≡ true
        → peek_at j itrs ≡ some item
        → ((i : ℕ) → q i ≡ (p i && not (j == i)))
        → Partial q rev itrs
            (push (record { index = j; key = item; rev = rev }) heap)
            (set flags j true)
    Partial-push j item q e f h =
        let r : IterRef = record { index = j; key = item; rev = rev } in
        let apart : lookup j heap ≡ none = ground (arith, ok.filled j, e) in
        record {
          heap_ok = push-IsHeap r heap apart ok.heap_ok;
          flagged =
              λ i. ground (arith, ok.flagged i, get-set flags j i true, lookup-push i r heap apart);
          filled = λ i. ground (arith, ok.filled i, f, h i, lookup-push i r heap apart, ==→eq j i);
        }

    pub Partial-pop :
        (r : IterRef) (h : List IterRef) (q : ℕ → Bool)
        → heap ≡ r ∷ h
        → ((i : ℕ) → q i ≡ (p i || r.index == i))
        → Partial q rev itrs h (set flags r.index false)
    Partial-pop r h q e k =
        let k' : IsHeap rev (r ∷ h) = rw e at ok.heap_ok in
        let at : (i : ℕ) → lookup i heap ≡ lookup i (r ∷ h) = λ i. ap (λ t. lookup i t) e in
        record {
          heap_ok = tail-IsHeap r h k';
          flagged = λ i. ground (
            arith,
            at i,
            ok.flagged i,
            get-set flags r.index i false,
            lookup-tail i r h k'.distinct.0,
          );
          filled = λ i. ground (arith, at i, k i, ok.filled i, lookup-tail i r h k'.distinct.0);
        }

    -- The first element is the current item of its iterator, which is not pending.
    pub Partial-first :
        (r : IterRef) (h : List IterRef)
        → heap ≡ r ∷ h
        → (p r.index ≡ false)
          × ((s : S) × (get_elem? itrs r.index ≡ some s) × (x.peek s ≡ some r.key))
    Partial-first r h e =
        let at : lookup r.index heap ≡ some r.key = rw e (ground arith) in
        elim (Bool-cases (p r.index)) [
          | inl f ↦ absurd (ground (arith, at, f, ok.filled r.index))
          | inr f ↦ elim (Option-cases (get_elem? itrs r.index)) [
            | inl g ↦ absurd (ground (arith, at, f, g, ok.filled r.index))
            | inr (s, g) ↦ (f, (s, g, ground (arith, at, f, g, ok.filled r.index)))
          ]
        ]
