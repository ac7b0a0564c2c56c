-- ===== src/Table/Builder/Prefix.antt =====
-- What `key_diff` strips is a prefix of the base key.
use badger_rs.Common.{ℕ, suc, ◌-◌, ◌≤◌}
use badger_rs.Common.{◌≡◌, refl, inl, inr, arith}
use badger_rs.Common.{[], ◌∷◌, ◌++◌}
use badger_rs.Common.{◌==◌, Bool-cases}
use badger_rs.Common.{length, take}
use badger_rs.Common.Keys.{Key}
use badger_rs.Table.Builder.{key_diff}

-- How many bytes are shared.
abbrev pub shared : Key → Key → ℕ
shared key base = length key - length (key_diff key base)

pub length-key_diff : (key base : Key) → length (key_diff key base) ≤ length key
unfolding key_diff
length-key_diff [] base = omega arith
length-key_diff (x ∷ xs) [] = omega arith
length-key_diff (x ∷ xs) (y ∷ ys) = ground (arith, length-key_diff xs ys)

pub shared-le : (key base : Key) → shared key base ≤ length base
unfolding key_diff
shared-le [] base = omega arith
shared-le (x ∷ xs) [] = omega arith
shared-le (x ∷ xs) (y ∷ ys) = ground (arith, shared-le xs ys, length-key_diff xs ys)

-- The shared part of the base key and the suffix make the key.
pub take-key_diff : (key base : Key) → take (shared key base) base ++ key_diff key base ≡ key
unfolding key_diff
take-key_diff [] base = refl
take-key_diff (x ∷ xs) [] = let e : shared (x ∷ xs) [] ≡ 0 = omega arith in rw e refl
take-key_diff (x ∷ xs) (y ∷ ys) = elim (Bool-cases (x == y)) [
  | inl same ↦
      let e : shared (x ∷ xs) (y ∷ ys) ≡ suc (shared xs ys) =
        ground (arith, length-key_diff xs ys) in
      rw e (ground (arith, take-key_diff xs ys))
  | inr differ ↦ let e : shared (x ∷ xs) (y ∷ ys) ≡ 0 = ground arith in rw e (ground arith)
]
