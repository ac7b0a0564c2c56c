-- ===== src/Compaction/Status.antt =====
-- Which ranges are being compacted on each level (src/compaction.rs, `CompactStatus` and
-- `LevelCompactStatus`). An outer `none` is a panic: a failed assertion or a level out of range.
use badger_rs.Common.{ℕ, ◌+◌}
use badger_rs.Common.{Bool, true, false, not, Option, some}
use badger_rs.Common.{List, [], ◌∷◌, ◌++◌}
use badger_rs.Common.{ltb, if◌then◌else◌, ◌>>=◌, ◌>>◌}
use badger_rs.Common.{guard, u64, sub_u64}
use badger_rs.Common.{length, get_elem?, set, retain, any}
use badger_rs.Compaction.KeyRange.{KeyRange, equals}
use badger_rs.Compaction.KeyRange
use badger_rs.Compaction.CompactDef.{CompactDef}
pub mod Undo

pub record LevelCompactStatus : Type 0 where
  pub ranges : List KeyRange
  pub del_size : ℕ

unfoldable pub level_overlaps_with : LevelCompactStatus → KeyRange → Bool
level_overlaps_with s dst = any (λ kr. KeyRange.overlaps_with kr dst) s.ranges

-- Whether something was removed, and the status without `dst`.
unfoldable pub remove : LevelCompactStatus → KeyRange → Bool × LevelCompactStatus
remove s dst =
    let kept = retain (λ r. not (equals r dst)) s.ranges in
    (ltb (length kept) (length s.ranges), record s { ranges = kept })

unfoldable pub add : LevelCompactStatus → KeyRange → LevelCompactStatus
add s dst = record s { ranges = s.ranges ++ (dst ∷ []) }

unfoldable pub incr_del_size : LevelCompactStatus → ℕ → LevelCompactStatus
incr_del_size s n = record s { del_size = u64 (s.del_size + n) }

unfoldable pub decr_del_size : LevelCompactStatus → ℕ → LevelCompactStatus
decr_del_size s n = record s { del_size = sub_u64 s.del_size n }

-- `CompactStatus` is the list of the levels' statuses.
abbrev pub CompactStatus : Type 0
CompactStatus = List LevelCompactStatus

-- Whether the compaction may run: its ranges are free on both levels, and the upper level, less what is
-- already leaving it, has reached its maximum.
unfoldable pub may_run : CompactDef → LevelCompactStatus → LevelCompactStatus → Bool
may_run cd this next =
    if level_overlaps_with this cd.this_range
    then false
    else if level_overlaps_with next cd.next_range
    then false
    else if ltb (sub_u64 cd.this_level.total_size this.del_size) cd.this_level.max_total_size
    then false
    else true

unfoldable pub compare_and_add : CompactStatus → CompactDef → Option (Bool × CompactStatus)
compare_and_add levels cd = do
  let level = cd.this_level.level
  guard (ltb (level + 1) (length levels))
  this ← get_elem? levels level
  next ← get_elem? levels (level + 1)
  if may_run cd this next
      then some (
        true,
        set (set levels level (incr_del_size (add this cd.this_range) cd.this_size)) (level + 1)
            (add next cd.next_range),
      )
      else some (false, levels)

unfoldable pub delete : CompactStatus → CompactDef → Option CompactStatus
delete levels cd = do
  let level = cd.this_level.level
  guard (ltb (level + 1) (length levels))
  this ← get_elem? levels level
  next ← get_elem? levels (level + 1)
  let out = remove (decr_del_size this cd.this_size) cd.this_range
  guard (out.0)
  some (set (set levels level out.1) (level + 1) (remove next cd.next_range).1)

unfoldable pub overlaps_with : CompactStatus → ℕ → KeyRange → Option Bool
overlaps_with levels level this = do s ← get_elem? levels level; some (level_overlaps_with s this)

unfoldable pub del_size : CompactStatus → ℕ → Option ℕ
del_size levels level = do s ← get_elem? levels level; some s.del_size
