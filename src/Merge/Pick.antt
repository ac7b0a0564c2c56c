-- ===== src/Merge/Pick.antt =====
-- What a merge should answer: the first of the heads, in the order of the keys and then of the
-- iterators.
use badger_rs.Common.{ℕ, zero, suc, Ordering}
use badger_rs.Common.{◌≡◌, refl, sym, ◌∙◌, inl, inr, arith}
use badger_rs.Common.{Bool, true, false, Option, none, some}
use badger_rs.Common.{List, [], ◌∷◌}
use badger_rs.Common.{leb, if◌then◌else◌, Option-cases, Ordering-cases}
use badger_rs.Common.{none-some}
use badger_rs.Common.{get_elem?}
use badger_rs.Common.Keys.{Key, key_eq}
use badger_rs.LevelHandler.Lookup.{IteratorItem}
use badger_rs.Merge.Heap.{dir_cmp, dir_cmp_flip_lt, dir_cmp_refl}

abbrev pub head : List IteratorItem → Option IteratorItem
head [] = none
head (x ∷ xs) = some x

abbrev pub tail : List IteratorItem → List IteratorItem
tail [] = []
tail (x ∷ xs) = xs

abbrev pub first_of : Bool → IteratorItem → Option IteratorItem → IteratorItem
first_of rev x none = x
first_of rev x (some y) = elim (dir_cmp rev y.0 x.0) [ Ordering.lt ↦ y | _ ↦ x ]

unfoldable pub pick : Bool → List (List IteratorItem) → Option IteratorItem
pick rev [] = none
pick rev (l ∷ ls) = elim (head l) [
  | none ↦ pick rev ls
  | some x ↦ some (first_of rev x (pick rev ls))
]

-- A list moves on past its head if that has the key.
abbrev pub has_key : Key → Option IteratorItem → Bool
has_key k none = false
has_key k (some item) = key_eq item.0 k

abbrev pub past_key : Key → List IteratorItem → List IteratorItem
past_key k l = if has_key k (head l) then tail l else l

abbrev pub head_at : ℕ → List (List IteratorItem) → Option IteratorItem
head_at i ls = elim (get_elem? ls i) [ none ↦ none | some l ↦ head l ]

-- The order of two heads in two of the lists.
abbrev pub earlier : Bool → ℕ → IteratorItem → ℕ → IteratorItem → Bool
earlier rev i a j b = elim (dir_cmp rev a.0 b.0) [
  | Ordering.lt ↦ true
  | Ordering.eq ↦ leb i j
  | Ordering.gt ↦ false
]

pub pick-head_at :
    (rev : Bool) (ls : List (List IteratorItem)) (y : IteratorItem)
    → pick rev ls ≡ some y
    → (j : ℕ) × (head_at j ls ≡ some y)
unfolding pick
pick-head_at rev [] y e = absurd (none-some y e)
pick-head_at rev ([] ∷ ls) y e = let (j, h) = pick-head_at rev ls y e in (suc j, h)
pick-head_at rev ((x ∷ l) ∷ ls) y e = elim (Option-cases (pick rev ls)) [
  | inl n ↦ (0, ground (arith, e, n))
  | inr (z, n) ↦
      let (j, h) = pick-head_at rev ls z n in
      elim (Ordering-cases (dir_cmp rev z.0 x.0)) [
        | inl o ↦ (suc j, h ∙ ground (arith, e, n, o))
        | inr (inl o) ↦ (0, ground (arith, e, n, o))
        | inr (inr o) ↦ (0, ground (arith, e, n, o))
      ]
]

pub pick-none :
    (rev : Bool) (ls : List (List IteratorItem))
    → ((i : ℕ) → head_at i ls ≡ none)
    → pick rev ls ≡ none
unfolding pick
pick-none rev [] h = refl
pick-none rev ([] ∷ ls) h = pick-none rev ls (λ i. h (suc i))
pick-none rev ((x ∷ l) ∷ ls) h = absurd (none-some x (sym (h 0)))

-- The head that is earlier than every other is the one that is picked.
pub pick-earlier :
    (rev : Bool) (ls : List (List IteratorItem)) (i : ℕ) (a : IteratorItem)
    → head_at i ls ≡ some a
    → ((j : ℕ) (b : IteratorItem) → head_at j ls ≡ some b → earlier rev i a j b ≡ true)
    → pick rev ls ≡ some a
unfolding pick
pick-earlier rev [] i a e h = absurd (none-some a e)
pick-earlier rev ([] ∷ ls) zero a e h = absurd (none-some a e)
pick-earlier rev ((x ∷ l) ∷ ls) zero a e h = elim (Option-cases (pick rev ls)) [
  | inl n ↦ ground (arith, e, n)
  | inr (z, n) ↦
      let (j, k) = pick-head_at rev ls z n in
      ground (
        arith,
        e,
        n,
        h (suc j) z k,
        dir_cmp_flip_lt rev z.0 x.0,
        dir_cmp_refl rev x.0,
        dir_cmp_flip_lt rev x.0 z.0,
      )
]
pick-earlier rev ([] ∷ ls) (suc i) a e h =
    pick-earlier rev ls i a e (λ j b k. ground (arith, h (suc j) b k))
pick-earlier rev ((x ∷ l) ∷ ls) (suc i) a e h =
    let rest = pick-earlier rev ls i a e (λ j b k. ground (arith, h (suc j) b k)) in
    ground (arith, rest, h 0 x refl)
