-- ===== src/Common/Keys.antt =====
-- Keys are byte strings; `Ord for [u8]` is the lexicographic order.
use Prim.Native.Nat.{ℕ, compare, Ordering}
use mathlib.Core.Path.{◌≡◌, refl}
use mathlib.Core.Bool.{Bool, true, false, not}
use mathlib.Core.Logic.{◌↔◌}
use mathlib.Core.List.{List, [], ◌∷◌}
use native.Mathlib.Omega.{arith}

abbrev pub Key : Type 0
Key = List ℕ

unfoldable pub key_cmp : Key → Key → Ordering
key_cmp [] [] = Ordering.eq
key_cmp [] (y ∷ ys) = Ordering.lt
key_cmp (x ∷ xs) [] = Ordering.gt
key_cmp (x ∷ xs) (y ∷ ys) = elim (compare x y) [
  | Ordering.lt ↦ Ordering.lt
  | Ordering.eq ↦ key_cmp xs ys
  | Ordering.gt ↦ Ordering.gt
]

abbrev pub key_lt : Key → Key → Bool
key_lt a b = elim (key_cmp a b) [ Ordering.lt ↦ true | _ ↦ false ]

abbrev pub key_le : Key → Key → Bool
key_le a b = elim (key_cmp a b) [ Ordering.gt ↦ false | _ ↦ true ]

abbrev pub key_eq : Key → Key → Bool
key_eq a b = elim (key_cmp a b) [ Ordering.eq ↦ true | _ ↦ false ]

pub key_cmp_refl : (a : Key) → key_cmp a a ≡ Ordering.eq
unfolding key_cmp
key_cmp_refl [] = refl
key_cmp_refl (x ∷ xs) = ground (arith, key_cmp_refl xs)

pub key_cmp_eq : (a b : Key) → key_cmp a b ≡ Ordering.eq → a ≡ b
unfolding key_cmp
key_cmp_eq [] [] h = refl
key_cmp_eq [] (y ∷ ys) h = ground arith
key_cmp_eq (x ∷ xs) [] h = ground arith
key_cmp_eq (x ∷ xs) (y ∷ ys) h = ground (arith, key_cmp_eq xs ys)

pub key_cmp_flip : (a b : Key) → key_cmp a b ≡ Ordering.gt → key_cmp b a ≡ Ordering.lt
unfolding key_cmp
key_cmp_flip [] [] h = ground arith
key_cmp_flip [] (y ∷ ys) h = ground arith
key_cmp_flip (x ∷ xs) [] h = refl
key_cmp_flip (x ∷ xs) (y ∷ ys) h = ground (arith, key_cmp_flip xs ys)

pub key_cmp_flip_lt : (a b : Key) → key_cmp a b ≡ Ordering.lt → key_cmp b a ≡ Ordering.gt
unfolding key_cmp
key_cmp_flip_lt [] [] h = ground arith
key_cmp_flip_lt [] (y ∷ ys) h = refl
key_cmp_flip_lt (x ∷ xs) [] h = ground arith
key_cmp_flip_lt (x ∷ xs) (y ∷ ys) h = ground (arith, key_cmp_flip_lt xs ys)

pub key_cmp_trans :
    (a b c : Key)
    → key_cmp a b ≡ Ordering.lt
    → key_cmp b c ≡ Ordering.lt
    → key_cmp a c ≡ Ordering.lt
unfolding key_cmp
key_cmp_trans [] [] c h k = ground arith
key_cmp_trans [] (y ∷ ys) [] h k = ground arith
key_cmp_trans [] (y ∷ ys) (z ∷ zs) h k = refl
key_cmp_trans (x ∷ xs) [] c h k = ground arith
key_cmp_trans (x ∷ xs) (y ∷ ys) [] h k = ground arith
key_cmp_trans (x ∷ xs) (y ∷ ys) (z ∷ zs) h k = ground (arith, key_cmp_trans xs ys zs)

pub key_le_refl : (a : Key) → key_le a a ≡ true
key_le_refl a = ground (arith, key_cmp_refl a)

pub key_le_trans : (a b c : Key) → key_le a b ≡ true → key_le b c ≡ true → key_le a c ≡ true
key_le_trans a b c h k = ground (arith, key_cmp_trans a b c, key_cmp_eq a b, key_cmp_eq b c)

pub key_le_antisym : (a b : Key) → key_le a b ≡ true → key_le b a ≡ true → a ≡ b
key_le_antisym a b h k = ground (arith, key_cmp_eq a b, key_cmp_flip_lt a b)

-- The strict order is the negation of the other one, turned round.
pub key_lt-not_le : (a b : Key) → key_lt a b ≡ not (key_le b a)
key_lt-not_le a b = ground (
  arith,
  key_cmp_flip_lt a b,
  key_cmp_flip a b,
  key_cmp_eq a b,
  key_cmp_flip b a,
  key_cmp_flip_lt b a,
  key_cmp_eq b a,
  key_cmp_refl a,
)

pub key_le_total : (a b : Key) → key_le a b ≡ false → key_le b a ≡ true
key_le_total a b h = ground (arith, key_cmp_flip a b)

pub key_lt_le : (a b : Key) → key_lt a b ≡ true → key_le a b ≡ true
key_lt_le a b h = ground arith

pub key_lt_le_trans : (a b c : Key) → key_lt a b ≡ true → key_le b c ≡ true → key_lt a c ≡ true
key_lt_le_trans a b c h k = ground (arith, key_cmp_trans a b c, key_cmp_eq b c)

pub key_le_lt_trans : (a b c : Key) → key_le a b ≡ true → key_lt b c ≡ true → key_lt a c ≡ true
key_le_lt_trans a b c h k = ground (arith, key_cmp_trans a b c, key_cmp_eq a b)

pub key_lt_irrefl : (a : Key) → key_lt a a ≡ false
key_lt_irrefl a = ground (arith, key_cmp_refl a)

pub key_eq_iff : (a b : Key) → (key_eq a b ≡ true) ↔ (a ≡ b)
key_eq_iff a b = (λ h. key_cmp_eq a b (ground arith), λ h. ground (arith, key_cmp_refl b))
