-- ===== src/Compaction/KeyRange/Overlap.antt =====
-- `overlaps_with` decides whether two ranges share a key.
use badger_rs.Common.{◌≡◌, refl, ◌↔◌, arith}
use badger_rs.Common.{Bool, true, false, ◌&&◌, ◌||◌}
use badger_rs.Common.{if◌then◌else◌}
use badger_rs.Common.Keys.{
  Key, key_le, key_le_refl, key_le_trans, key_lt-not_le, key_le_total, key_eq_iff,
}
use badger_rs.Compaction.KeyRange.{KeyRange, equals, overlaps_with}

abbrev pub contains_key : KeyRange → Key → Bool
contains_key r k = r.inf || (key_le r.left k && key_le k r.right)

-- A range that holds a key at all.
abbrev pub IsProper : KeyRange → Type 0
IsProper r = (r.inf || key_le r.left r.right) ≡ true

-- A key in both ranges, if they overlap.
common_key : KeyRange → KeyRange → Key
common_key a b =
    if a.inf
    then b.left
    else if b.inf
    then a.left
    else if key_le a.left b.left
    then b.left
    else a.left

-- Two proper ranges overlap, by the test of the code, exactly when some key lies in both.
pub overlaps_with_iff :
    (a b : KeyRange)
    → IsProper a
    → IsProper b
    → (overlaps_with a b ≡ true)
      ↔ ((k : Key) × (contains_key a k ≡ true) × (contains_key b k ≡ true))
unfolding overlaps_with common_key
overlaps_with_iff a b ha hb = (
  λ h. (
    common_key a b,
    ground (
      arith,
      key_lt-not_le b.right a.left,
      key_lt-not_le a.right b.left,
      key_le_refl a.left,
      key_le_refl b.left,
      key_le_total a.left b.left,
    ),
    ground (
      arith,
      key_lt-not_le b.right a.left,
      key_lt-not_le a.right b.left,
      key_le_refl a.left,
      key_le_refl b.left,
      key_le_total a.left b.left,
    ),
  ),
  λ w. ground (
    arith,
    w,
    key_lt-not_le b.right a.left,
    key_lt-not_le a.right b.left,
    key_le_trans a.left w.0 b.right,
    key_le_trans b.left w.0 a.right,
  ),
)

-- The order of the two ranges does not matter.
pub overlaps_with_comm : (a b : KeyRange) → overlaps_with a b ≡ overlaps_with b a
unfolding overlaps_with
overlaps_with_comm a b = ground arith

-- A proper range overlaps itself.
pub overlaps_with_self : (a : KeyRange) → IsProper a → overlaps_with a a ≡ true
unfolding overlaps_with
overlaps_with_self a h = ground (arith, key_lt-not_le a.right a.left)

-- Equality of ranges, as the code tests it, is that of the left ends alone.
pub equals-left_only : (a b : KeyRange) → (equals a b ≡ true) ↔ (a.left ≡ b.left)
unfolding equals
equals-left_only a b = (
  λ h. ground (arith, (key_eq_iff a.left b.left).0),
  λ h. ground (arith, (key_eq_iff a.left b.left).1 h, (key_eq_iff a.right a.right).1 refl),
)

-- Proper ranges that are equal by the code's test overlap each other.
pub equals-overlaps :
    (a b : KeyRange) → IsProper a → IsProper b → equals a b ≡ true → overlaps_with a b ≡ true
unfolding overlaps_with
equals-overlaps a b p q h =
    ground (
      arith,
      (equals-left_only a b).0 h,
      key_lt-not_le a.right a.left,
      key_lt-not_le b.right b.left,
    )

-- Ranges that do not overlap are both finite.
pub finite_of_apart :
    (a b : KeyRange) → overlaps_with a b ≡ false → (a.inf ≡ false) × (b.inf ≡ false)
unfolding overlaps_with
finite_of_apart a b h = ground arith
