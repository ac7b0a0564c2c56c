-- ===== src/Merge/Ascend.antt =====
-- Lists of items in strict order, and the item of a key in them: what a step of the merge takes off.
use mathlib.Core.Path.{subst}
use badger_rs.Common.{ℕ, ◌+◌, ◌≤◌, ◌<◌, Ordering}
use badger_rs.Common.{◌≡◌, refl, sym, ◌∙◌, ◌≢◌, ◌⊎◌, inl, inr, arith}
use badger_rs.Common.{Bool, true, false, Option, none, some}
use badger_rs.Common.{List, [], ◌∷◌, map}
use badger_rs.Common.{if◌then◌else◌, Bool-cases, Option-cases, Ordering-cases}
use badger_rs.Common.{none-some}
use badger_rs.Common.{length, All}
use badger_rs.Common.{All-weaken}
use badger_rs.Common.{some_inj}
use badger_rs.Common.Keys.{Key, key_eq, key_cmp_refl, key_cmp_eq}
use badger_rs.LevelHandler.Lookup.{IteratorItem, or_else}
use badger_rs.Merge.Heap.{dir_cmp, dir_cmp_refl, dir_cmp_eq, dir_cmp_flip, dir_cmp_trans}
use badger_rs.Merge.Pick.{past_key, first_of, pick}

-- An item that stands behind a key, in the direction of the iterator.
abbrev pub After : Bool → Key → IteratorItem → Type 0
After rev k z = dir_cmp rev k z.0 ≡ Ordering.lt

abbrev pub Ascends : Bool → List IteratorItem → Type 0
Ascends rev [] = Unit
Ascends rev (y ∷ ys) = All (After rev y.0) ys × Ascends rev ys

-- The first item with a key in a list, and in the first list that has one.
abbrev pub find_key : Key → List IteratorItem → Option IteratorItem
find_key k [] = none
find_key k (y ∷ ys) = if key_eq y.0 k then some y else find_key k ys

abbrev pub first_find : Key → List (List IteratorItem) → Option IteratorItem
first_find k [] = none
first_find k (l ∷ ls) = or_else (find_key k l) (first_find k ls)

abbrev pub total : List (List IteratorItem) → ℕ
total [] = 0
total (l ∷ ls) = length l + total ls

abbrev pub AllItems {κ} : (IteratorItem → Type κ) → List (List IteratorItem) → Type κ
AllItems P ls = All (λ l. All P l) ls

find_key-after :
    (rev : Bool) (k : Key) (l : List IteratorItem) → All (After rev k) l → find_key k l ≡ none
find_key-after rev k [] a = refl
find_key-after rev k (y ∷ ys) a =
    ground (arith, a.0, key_cmp_eq y.0 k, dir_cmp_refl rev k, find_key-after rev k ys a.1)

-- What is behind a key behind another one is behind that.
After_trans :
    (rev : Bool) (k j : Key) (l : List IteratorItem)
    → dir_cmp rev k j ≡ Ordering.lt
    → All (After rev j) l
    → All (After rev k) l
After_trans rev k j l e a =
    All-weaken (After rev j) (After rev k) l (λ z f. dir_cmp_trans rev k j z.0 e f) a

-- Which of the lists the item comes from, when the first is not empty.
pick-cases :
    (rev : Bool) (x : IteratorItem) (l : List IteratorItem) (ls : List (List IteratorItem))
    (a : IteratorItem)
    → pick rev ((x ∷ l) ∷ ls) ≡ some a
    → ((x ≡ a) × ((y : IteratorItem) → pick rev ls ≡ some y → dir_cmp rev x.0 y.0 ≢ Ordering.gt))
      ⊎ ((pick rev ls ≡ some a) × (dir_cmp rev a.0 x.0 ≡ Ordering.lt))
unfolding pick
pick-cases rev x l ls a e = elim (Option-cases (pick rev ls)) [
  | inl n ↦ inl (some_inj (ground (arith, e, n)), λ y f. absurd (none-some y (sym n ∙ f)))
  | inr (z, n) ↦ elim (Bool-cases (elim (dir_cmp rev z.0 x.0) [ Ordering.lt ↦ true | _ ↦ false ])) [
    | inl f ↦ inr (n ∙ ground (arith, e, n, f), ground (arith, e, n, f))
    | inr f ↦ inl (
      some_inj (ground (arith, e, n, f)),
      λ y g h. ground (arith, f, g, h, n, dir_cmp_flip rev x.0 y.0 h),
    )
  ]
]

pub pick-All {κ} :
    (P : IteratorItem → Type κ) (rev : Bool) (ls : List (List IteratorItem)) (a : IteratorItem)
    → AllItems P ls
    → pick rev ls ≡ some a
    → P a
unfolding pick
pick-All P rev [] a h e = absurd (none-some a e)
pick-All P rev ([] ∷ ls) a h e = pick-All P rev ls a h.1 e
pick-All P rev ((x ∷ l) ∷ ls) a h e = elim (pick-cases rev x l ls a e) [
  | inl (same, _) ↦ subst P same h.0.0
  | inr (n, _) ↦ pick-All P rev ls a h.1 n
]

-- No head is before the one that is picked.
abbrev HeadNotBefore : Bool → Key → List IteratorItem → Type 0
HeadNotBefore rev k [] = Unit
HeadNotBefore rev k (y ∷ ys) = dir_cmp rev k y.0 ≢ Ordering.gt

not_before_trans :
    (rev : Bool) (a b c : Key)
    → dir_cmp rev a b ≢ Ordering.gt
    → dir_cmp rev b c ≢ Ordering.gt
    → dir_cmp rev a c ≢ Ordering.gt
not_before_trans rev a b c e h g =
    ground (arith, e, h, g, dir_cmp_trans rev a b c, dir_cmp_eq rev a b, dir_cmp_eq rev b c)

first_of-head :
    (rev : Bool) (x : IteratorItem) (o : Option IteratorItem)
    → dir_cmp rev (first_of rev x o).0 x.0 ≢ Ordering.gt
first_of-head rev x none = λ g. ground (arith, g, dir_cmp_refl rev x.0)
first_of-head rev x (some y) = λ g. ground (arith, g, dir_cmp_refl rev x.0)

first_of-other :
    (rev : Bool) (x y : IteratorItem) → dir_cmp rev (first_of rev x (some y)).0 y.0 ≢ Ordering.gt
first_of-other rev x y = λ g. ground (arith, g, dir_cmp_refl rev y.0, dir_cmp_flip rev x.0 y.0)

pub pick-HeadNotBefore :
    (rev : Bool) (ls : List (List IteratorItem)) (k : Key)
    → ((y : IteratorItem) → pick rev ls ≡ some y → dir_cmp rev k y.0 ≢ Ordering.gt)
    → All (HeadNotBefore rev k) ls
unfolding pick
pick-HeadNotBefore rev [] k h = tt
pick-HeadNotBefore rev ([] ∷ ls) k h = (tt, pick-HeadNotBefore rev ls k h)
pick-HeadNotBefore rev ((x ∷ l) ∷ ls) k h =
    let z : IteratorItem = first_of rev x (pick rev ls) in
    let before : dir_cmp rev k z.0 ≢ Ordering.gt = h z refl in
    (
      not_before_trans rev k z.0 x.0 before (first_of-head rev x (pick rev ls)),
      pick-HeadNotBefore rev ls k
          (λ y e. not_before_trans rev k z.0 y.0 before (rw e (first_of-other rev x y))),
    )

-- What is left after the step is behind the item that was picked.
past_key-After :
    (rev : Bool) (k : Key) (l : List IteratorItem)
    → Ascends rev l
    → HeadNotBefore rev k l
    → All (After rev k) (past_key k l)
past_key-After rev k [] o h = tt
past_key-After rev k (y ∷ ys) o h = elim (Ordering-cases (dir_cmp rev k y.0)) [
  | inl f ↦
      let other : key_eq y.0 k ≡ false = ground (arith, f, key_cmp_eq y.0 k, dir_cmp_refl rev k) in
      rw other (f, After_trans rev k y.0 ys f o.0)
  | inr (inl f) ↦
      let same : k ≡ y.0 = dir_cmp_eq rev k y.0 f in
      let found : key_eq y.0 k ≡ true = ground (arith, same, key_cmp_refl y.0) in
      rw found (rw same o.0)
  | inr (inr f) ↦ absurd (h f)
]

past_key-Ascends :
    (rev : Bool) (k : Key) (l : List IteratorItem) → Ascends rev l → Ascends rev (past_key k l)
past_key-Ascends rev k [] o = tt
past_key-Ascends rev k (y ∷ ys) o = elim (Bool-cases (key_eq y.0 k)) [
  | inl e ↦ rw e o.1
  | inr e ↦ rw e o
]

past_key-All {κ} :
    (P : IteratorItem → Type κ) (k : Key) (l : List IteratorItem) → All P l → All P (past_key k l)
past_key-All P k [] h = tt
past_key-All P k (y ∷ ys) h = elim (Bool-cases (key_eq y.0 k)) [ inl e ↦ rw e h.1 | inr e ↦ rw e h ]

find_key-past :
    (j k : Key) (l : List IteratorItem)
    → key_eq k j ≡ false
    → find_key j (past_key k l) ≡ find_key j l
find_key-past j k [] e = refl
find_key-past j k (y ∷ ys) e = ground (arith, e, key_cmp_eq y.0 k)

module _ (rev : Bool) (k : Key) where
  pub past-After :
      (ls : List (List IteratorItem))
      → All (Ascends rev) ls
      → All (HeadNotBefore rev k) ls
      → AllItems (After rev k) (map (past_key k) ls)
  past-After [] o h = tt
  past-After (l ∷ ls) o h = (past_key-After rev k l o.0 h.0, past-After ls o.1 h.1)

  pub past-Ascends :
      (ls : List (List IteratorItem))
      → All (Ascends rev) ls
      → All (Ascends rev) (map (past_key k) ls)
  past-Ascends [] o = tt
  past-Ascends (l ∷ ls) o = (past_key-Ascends rev k l o.0, past-Ascends ls o.1)

pub past-AllItems {κ} :
    (P : IteratorItem → Type κ) (k : Key) (ls : List (List IteratorItem))
    → AllItems P ls
    → AllItems P (map (past_key k) ls)
past-AllItems P k [] h = tt
past-AllItems P k (l ∷ ls) h = (past_key-All P k l h.0, past-AllItems P k ls h.1)

pub first_find-past :
    (j k : Key) (ls : List (List IteratorItem))
    → key_eq k j ≡ false
    → first_find j (map (past_key k) ls) ≡ first_find j ls
first_find-past j k [] e = refl
first_find-past j k (l ∷ ls) e = rw (find_key-past j k l e, first_find-past j k ls e) refl

-- The item that is picked is the one that the first list with its key has.
pub first_find-pick :
    (rev : Bool) (ls : List (List IteratorItem)) (a : IteratorItem)
    → All (Ascends rev) ls
    → pick rev ls ≡ some a
    → first_find a.0 ls ≡ some a
unfolding pick
first_find-pick rev [] a o e = absurd (none-some a e)
first_find-pick rev ([] ∷ ls) a o e = first_find-pick rev ls a o.1 e
first_find-pick rev ((x ∷ l) ∷ ls) a o e = elim (pick-cases rev x l ls a e) [
  | inl (same, _) ↦ ground (arith, same, key_cmp_refl x.0)
  | inr (n, before) ↦
      let absent : find_key a.0 (x ∷ l) ≡ none =
        find_key-after rev a.0 (x ∷ l) (before, After_trans rev a.0 x.0 l before o.0.0) in
      rw absent (first_find-pick rev ls a o.1 n)
]

total-past_le : (k : Key) (ls : List (List IteratorItem)) → total (map (past_key k) ls) ≤ total ls
total-past_le k [] = omega arith
total-past_le k ([] ∷ ls) = omega (arith, total-past_le k ls)
total-past_le k ((x ∷ l) ∷ ls) = ground (arith, total-past_le k ls)

pub total-past :
    (rev : Bool) (ls : List (List IteratorItem)) (a : IteratorItem)
    → pick rev ls ≡ some a
    → total (map (past_key a.0) ls) < total ls
unfolding pick
total-past rev [] a e = absurd (none-some a e)
total-past rev ([] ∷ ls) a e = omega (arith, total-past rev ls a e)
total-past rev ((x ∷ l) ∷ ls) a e = elim (pick-cases rev x l ls a e) [
  | inl (same, _) ↦ ground (arith, same, key_cmp_refl x.0, total-past_le a.0 ls)
  | inr (n, _) ↦ ground (arith, total-past rev ls a n)
]

pub first_find-nothing :
    (rev : Bool) (ls : List (List IteratorItem)) (k : Key)
    → pick rev ls ≡ none
    → first_find k ls ≡ none
unfolding pick
first_find-nothing rev [] k e = refl
first_find-nothing rev ([] ∷ ls) k e = first_find-nothing rev ls k e
first_find-nothing rev ((x ∷ l) ∷ ls) k e = absurd (none-some _ (sym e))
