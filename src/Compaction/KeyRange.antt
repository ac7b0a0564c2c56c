-- ===== src/Compaction/KeyRange.antt =====
-- `KeyRange` of src/compaction.rs: the closed range [left, right], or all keys if `inf` is set.
use badger_rs.Common.{Bool, true, false, ◌&&◌, ◌||◌, Option, none, some}
use badger_rs.Common.{List, [], ◌∷◌}
use badger_rs.Common.{if◌then◌else◌}
use badger_rs.Common.{bool_eq}
use badger_rs.Common.Keys.{Key, key_lt, key_eq}
use mathlib.Core.List.{foldl}
pub mod Overlap
pub mod Cover
use badger_rs.TableRef.{Table}

pub record KeyRange : Type 0 where
  pub left : Key
  pub right : Key
  pub inf : Bool

abbrev pub info_range : KeyRange
info_range = record { left = []; right = []; inf = true }

-- `self.right == self.right && self.inf == self.inf`: the code compares two of the fields with
-- themselves.
unfoldable pub equals : KeyRange → KeyRange → Bool
equals self other =
    key_eq self.left other.left && (key_eq self.right self.right && bool_eq self.inf self.inf)

unfoldable pub overlaps_with : KeyRange → KeyRange → Bool
overlaps_with self other =
    if self.inf || other.inf
    then true
    else if key_lt other.right self.left
    then false
    else if key_lt self.right other.left
    then false
    else true

-- The running minimum and maximum of the loop of `get_range`.
unfoldable pub widen : KeyRange → Table → KeyRange
widen r t = record {
  left = if key_lt t.smallest r.left then t.smallest else r.left;
  right = if key_lt r.right t.biggest then t.biggest else r.right;
  inf = r.inf;
}

abbrev pub range_of : Table → KeyRange
range_of t = record { left = t.smallest; right = t.biggest; inf = false }

-- The assertion that there is a table fails with `none`.
unfoldable pub get_range : List Table → Option KeyRange
get_range [] = none
get_range (t ∷ ts) = some (foldl widen (range_of t) ts)
