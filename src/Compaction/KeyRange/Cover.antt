-- ===== src/Compaction/KeyRange/Cover.antt =====
-- `get_range` is the least range that covers the tables.
use badger_rs.Common.{◌≡◌, refl, arith}
use badger_rs.Common.{true, some}
use badger_rs.Common.{List, [], ◌∷◌}
use badger_rs.Common.{All}
use badger_rs.Common.Keys.{key_le, key_le_refl, key_le_trans, key_lt-not_le, key_lt_le}
use badger_rs.TableRef.{Table}
use badger_rs.Compaction.KeyRange.{KeyRange, widen, range_of, get_range}
use mathlib.Core.List.{foldl}

abbrev pub Covers : KeyRange → Table → Type 0
Covers r t = (key_le r.left t.smallest ≡ true) × (key_le t.biggest r.right ≡ true)

abbrev pub Within : KeyRange → KeyRange → Type 0
Within r s = (key_le s.left r.left ≡ true) × (key_le r.right s.right ≡ true)

widen-Covers : (r : KeyRange) (t : Table) → Covers (widen r t) t
unfolding widen
widen-Covers r t = (
  ground (arith, key_le_refl t.smallest, key_lt-not_le t.smallest r.left),
  ground (arith, key_le_refl t.biggest, key_lt-not_le r.right t.biggest),
)

Within-widen : (r : KeyRange) (t : Table) → Within r (widen r t)
unfolding widen
Within-widen r t = (
  ground (arith, key_le_refl r.left, key_lt_le t.smallest r.left),
  ground (arith, key_le_refl r.right, key_lt_le r.right t.biggest),
)

Within-trans : (r s u : KeyRange) → Within r s → Within s u → Within r u
Within-trans r s u h k =
    (key_le_trans u.left s.left r.left k.0 h.0, key_le_trans r.right s.right u.right h.1 k.1)

Covers-Within : (r s : KeyRange) (t : Table) → Covers r t → Within r s → Covers s t
Covers-Within r s t c w =
    (key_le_trans s.left r.left t.smallest w.0 c.0, key_le_trans t.biggest r.right s.right c.1 w.1)

Within-foldl : (ts : List Table) (r : KeyRange) → Within r (foldl widen r ts)
Within-foldl [] r = (key_le_refl r.left, key_le_refl r.right)
Within-foldl (t ∷ ts) r =
    Within-trans r (widen r t) (foldl widen (widen r t) ts) (Within-widen r t)
      (Within-foldl ts (widen r t))

Covers-foldl : (ts : List Table) (r : KeyRange) → All (Covers (foldl widen r ts)) ts
Covers-foldl [] r = tt
Covers-foldl (t ∷ ts) r = (
  Covers-Within (widen r t) (foldl widen (widen r t) ts) t (widen-Covers r t)
      (Within-foldl ts (widen r t)),
  Covers-foldl ts (widen r t),
)

-- Any range that covers the tables contains the computed one.
widen_least : (r s : KeyRange) (t : Table) → Within r s → Covers s t → Within (widen r t) s
unfolding widen
widen_least r s t w c = (ground (arith, w.0, c.0), ground (arith, w.1, c.1))

foldl_least :
    (ts : List Table) (r s : KeyRange)
    → Within r s
    → All (Covers s) ts
    → Within (foldl widen r ts) s
foldl_least [] r s w c = w
foldl_least (t ∷ ts) r s w c = foldl_least ts (widen r t) s (widen_least r s t w c.0) c.1

-- On tables that are not empty, `get_range` returns a range that covers every table and lies within
-- any range that covers them all.
pub get_range_least :
    (t : Table) (ts : List Table)
    → (r : KeyRange) × (get_range (t ∷ ts) ≡ some r)
      × All (Covers r) (t ∷ ts)
      × ((s : KeyRange) → All (Covers s) (t ∷ ts) → Within r s)
unfolding get_range
get_range_least t ts = (
  foldl widen (range_of t) ts,
  refl,
  (Within-foldl ts (range_of t), Covers-foldl ts (range_of t)),
  λ s c. foldl_least ts (range_of t) s c.0 c.1,
)
