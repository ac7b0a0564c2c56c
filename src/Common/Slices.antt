-- ===== src/Common/Slices.antt =====
-- What the program uses of the standard library's slices: `binary_search_by` and a stable sort.
-- The search is the scan that its contract allows: on a slice ordered for the test with one match at
-- most, the standard library promises this answer.
use badger_rs.Common.{ℕ, suc, ◌+◌, Ordering}
use badger_rs.Common.{◌≡◌, refl, ap, ◌∙◌, inl, inr, arith}
use badger_rs.Common.{Bool}
use badger_rs.Common.{List, [], ◌∷◌}
use badger_rs.Common.{if◌then◌else◌, Bool-cases}
use badger_rs.Common.{length, All}

pub data Search : Type 0 where
  found insert_at : ℕ → Search

abbrev pub shift : Search → Search
shift (found i) = found (suc i)
shift (insert_at i) = insert_at (suc i)

-- `unwrap_or_else(|n| n)`
abbrev pub either_index : Search → ℕ
either_index (found i) = i
either_index (insert_at i) = i

-- `map(|n| n + 1).unwrap_or_else(|n| n)`
abbrev pub past_index : Search → ℕ
past_index (found i) = i + 1
past_index (insert_at i) = i

pub either-shift : (s : Search) → either_index (shift s) ≡ suc (either_index s)
either-shift (found i) = refl
either-shift (insert_at i) = refl

pub past-shift : (s : Search) → past_index (shift s) ≡ suc (past_index s)
past-shift (found i) = omega arith
past-shift (insert_at i) = refl

module _ {ℓ} {A : Type ℓ} where
  unfoldable pub binary_search_by : (A → Ordering) → List A → Search
  binary_search_by cmp [] = insert_at 0
  binary_search_by cmp (x ∷ xs) = elim (cmp x) [
    | Ordering.lt ↦ shift (binary_search_by cmp xs)
    | Ordering.eq ↦ found 0
    | Ordering.gt ↦ insert_at 0
  ]

  -- `before a b` says that `a` may stay in front of `b`.
  unfoldable pub insert_sorted : (A → A → Bool) → A → List A → List A
  insert_sorted before a [] = a ∷ []
  insert_sorted before a (x ∷ xs) =
      let rest = insert_sorted before a xs in if before a x then a ∷ (x ∷ xs) else x ∷ rest

  unfoldable pub sort_by : (A → A → Bool) → List A → List A
  sort_by before [] = []
  sort_by before (x ∷ xs) = insert_sorted before x (sort_by before xs)

  pub length-insert_sorted :
      (before : A → A → Bool) (a : A) (xs : List A)
      → length (insert_sorted before a xs) ≡ suc (length xs)
  unfolding insert_sorted
  length-insert_sorted before a [] = refl
  length-insert_sorted before a (x ∷ xs) = ground (arith, length-insert_sorted before a xs)

  pub length-sort_by :
      (before : A → A → Bool) (xs : List A) → length (sort_by before xs) ≡ length xs
  unfolding sort_by
  length-sort_by before [] = refl
  length-sort_by before (x ∷ xs) =
      length-insert_sorted before x (sort_by before xs) ∙ ap suc (length-sort_by before xs)

  pub All-insert_sorted {κ} :
      (P : A → Type κ) (before : A → A → Bool) (a : A) (xs : List A)
      → P a
      → All P xs
      → All P (insert_sorted before a xs)
  unfolding insert_sorted
  All-insert_sorted P before a [] p h = (p, tt)
  All-insert_sorted P before a (x ∷ xs) p h = elim (Bool-cases (before a x)) [
    | inl e ↦ rw e (p, (h.0, h.1))
    | inr e ↦ rw e (h.0, All-insert_sorted P before a xs p h.1)
  ]

  pub All-sort_by {κ} :
      (P : A → Type κ) (before : A → A → Bool) (xs : List A) → All P xs → All P (sort_by before xs)
  unfolding sort_by
  All-sort_by P before [] h = tt
  All-sort_by P before (x ∷ xs) h =
      All-insert_sorted P before x (sort_by before xs) h.0 (All-sort_by P before xs h.1)
