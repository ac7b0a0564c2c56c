-- ===== src/LevelHandler.antt =====
-- One level of the tree (src/level_handler.rs, `LevelHandler`). Sizes are `u64` counters with
-- wrap-around; what happens to the reference counts of the tables is the trace `refs`. The locks are not
-- modelled: each function runs under the level's lock.
use badger_rs.Common.{ℕ, ◌+◌}
use badger_rs.Common.{Bool, true, false, not, ◌||◌, Option, none, some}
use badger_rs.Common.{List, [], ◌∷◌, ◌++◌}
use badger_rs.Common.{leb, ◌==◌, if◌then◌else◌, ◌>>=◌, ◌>>◌}
use badger_rs.Common.{guard, u64, sub_u64}
use badger_rs.Common.{length, contains}
use badger_rs.Common.Keys.{Key, key_cmp, key_lt, key_le}
use badger_rs.Common.Slices.{either_index, past_index, binary_search_by, sort_by}
use badger_rs.TableRef.{Table, RefEvent, incr_ref, decr_ref}
use badger_rs.Compaction.KeyRange.{KeyRange}
use mathlib.Core.List.{reverse}
pub mod Order
pub mod Overlapping
pub mod Sizes
pub mod Replace
pub mod Touching
pub mod Validate
pub mod Lookup

pub record LevelHandler : Type 0 where
  pub level : ℕ
  pub tables : List Table
  pub total_size : ℕ
  pub max_total_size : ℕ
  pub num_level_zero_tables_stall : ℕ
  pub refs : List RefEvent

unfoldable pub is_compactable : LevelHandler → ℕ → Bool
is_compactable h del_size = leb h.max_total_size (sub_u64 h.total_size del_size)

unfoldable pub incr_total_size : LevelHandler → ℕ → LevelHandler
incr_total_size h n = record h { total_size = u64 (h.total_size + n) }

unfoldable pub decr_total_size : LevelHandler → ℕ → LevelHandler
decr_total_size h n = record h { total_size = sub_u64 h.total_size n }

-- Drop the reference of a table that leaves the level, and its size.
unfoldable pub leave : LevelHandler → Table → LevelHandler
unfolding decr_total_size
leave h t = decr_total_size (record h { refs = h.refs ++ (decr_ref t.id ∷ []) }) t.size

-- Take a reference to a table that joins the level, and add its size.
unfoldable pub join : LevelHandler → Table → LevelHandler
unfolding incr_total_size
join h t = record (incr_total_size h t.size) { refs = h.refs ++ (incr_ref t.id ∷ []) }

-- `retain_mut` over tables, where a table that is not kept leaves the level; the list of tables of the
-- handler is written at the end.
unfoldable pub sweep : (Table → Bool) → List Table → LevelHandler → List Table × LevelHandler
sweep gone [] h = ([], h)
sweep gone (t ∷ ts) h =
    let out = sweep gone ts (if gone t then leave h t else h) in
    (if gone t then out.0 else t ∷ out.0, out.1)

unfoldable pub delete_tables : LevelHandler → List ℕ → LevelHandler
delete_tables h to_del =
    let out = sweep (λ t. contains t.id to_del) h.tables h in record (out.1) { tables = out.0 }

abbrev pub by_smallest : Table → Table → Bool
by_smallest a b = key_le a.smallest b.smallest

abbrev pub by_id : Table → Table → Bool
by_id a b = leb a.id b.id

abbrev pub sum_sizes : List Table → ℕ
sum_sizes [] = 0
sum_sizes (t ∷ ts) = t.size + sum_sizes ts

-- Level 0 is sorted by file id, the others by key.
unfoldable pub init_tables : LevelHandler → List Table → LevelHandler
init_tables h tables = record h {
  total_size = u64 (sum_sizes tables);
  tables = if h.level == 0 then sort_by by_id tables else sort_by by_smallest tables;
}

-- The half-open interval of the tables that intersect the range.
unfoldable pub overlapping_tables : LevelHandler → KeyRange → ℕ × ℕ
overlapping_tables h key_range =
    let left = either_index (binary_search_by (λ t. key_cmp t.biggest key_range.left) h.tables) in
    let right = past_index (binary_search_by (λ t. key_cmp t.smallest key_range.right) h.tables) in
    if left == right then (0, 0) else (left, right)

unfoldable pub join_all : LevelHandler → List Table → LevelHandler
join_all h [] = h
join_all h (t ∷ ts) = join_all (join h t) ts

abbrev pub last_of : Table → List Table → Table
last_of t [] = t
last_of t (u ∷ us) = last_of u us

-- A table that stays ends at or before the left end of the new tables, or begins behind their right
-- end.
unfoldable pub replaced : Key → Key → Table → Bool
replaced left right t = not (key_le t.biggest left || key_lt right t.smallest)

unfoldable pub replace_tables : LevelHandler → List Table → LevelHandler
replace_tables h [] = h
replace_tables h (n ∷ ns) =
    let out = sweep (replaced n.smallest (last_of n ns).biggest) h.tables (join_all h (n ∷ ns)) in
    record (out.1) { tables = sort_by by_smallest (out.0 ++ (n ∷ ns)) }

-- `none` is the failed assertion that this is level 0.
unfoldable pub try_add_level0_table : LevelHandler → Table → Option (Bool × LevelHandler)
try_add_level0_table h t = do
  guard (h.level == 0)
  if leb h.num_level_zero_tables_stall (length h.tables)
      then some (false, h)
      else some (true, record (join h t) { tables = h.tables ++ (t ∷ []) })

unfoldable pub num_tables : LevelHandler → ℕ
num_tables h = length h.tables

unfoldable pub drop_refs : LevelHandler → List Table → LevelHandler
drop_refs h [] = h
drop_refs h (t ∷ ts) = drop_refs (record h { refs = h.refs ++ (decr_ref t.id ∷ []) }) ts

unfoldable pub close : LevelHandler → LevelHandler
close h = drop_refs h h.tables

-- `validate` answers which pair of neighbours is out of order: `inter` if a table does not end before
-- the next begins, `intra` if a table's own keys are reversed. The loop starts at the second table.
pub data Fault : Type 0 where
  inter intra : ℕ → Fault

unfoldable pub validate_from : ℕ → Table → List Table → Option Fault
validate_from j t [] = none
validate_from j t (u ∷ us) =
    let rest = validate_from (j + 1) u us in
    if key_le u.smallest t.biggest
    then some (inter j)
    else if key_lt u.biggest u.smallest
    then some (intra j)
    else rest

unfoldable pub validate : LevelHandler → Option Fault
validate h =
    if h.level == 0 then none else elim h.tables [ [] ↦ none | t ∷ ts ↦ validate_from 1 t ts ]
