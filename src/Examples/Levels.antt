-- ===== src/Examples/Levels.antt =====
-- Runs of one level.
use badger_rs.Common.{ℕ, ◌^◌, ◌≤◌, ◌<◌}
use badger_rs.Common.{◌≡◌, refl, ◌↔◌, inl, arith}
use badger_rs.Common.{Bool, true, false, ◌&&◌, Option, none, some}
use badger_rs.Common.{[], ◌∷◌}
use badger_rs.Common.{if◌then◌else◌}
use badger_rs.Common.{length, retain, All}
use badger_rs.Common.Keys.{Key, key_cmp, key_le}
use badger_rs.Value.{default}
use badger_rs.Levels.Whole.{get, as_iterator, value_of, get-first_hit}
use badger_rs.TableRef.{Table, incr_ref}
use badger_rs.Compaction.KeyRange.{KeyRange, range_of, overlaps_with}
use badger_rs.LevelHandler.{
  LevelHandler, join, overlapping_tables, replace_tables, try_add_level0_table, validate,
}
use badger_rs.LevelHandler.Order.{IsTable, Ordered}
use badger_rs.LevelHandler.Overlapping.{between, overlapping_tables_lem}
use badger_rs.LevelHandler.Replace.{Touches, replace_tables-Ordered}
use badger_rs.LevelHandler.Touching.{Among, replace_tables_touching}
use badger_rs.LevelHandler.Validate.{validate_iff}
use badger_rs.LevelHandler.Lookup.{
  IteratorItem, get_table_for_key, first_hit, get_table_for_key-first_hit,
}

abbrev table : ℕ → Key → Key → ℕ → Table
table id smallest biggest size = record {
  id = id;
  smallest = smallest;
  biggest = biggest;
  size = size;
}

abbrev one : Table
one = table 1 (1 ∷ []) (3 ∷ []) 10

abbrev two : Table
two = table 2 (5 ∷ []) (7 ∷ []) 20

abbrev fresh : Table
fresh = table 3 (4 ∷ []) (6 ∷ []) 30

abbrev level_of : ℕ → LevelHandler
level_of level = record {
  level = level;
  tables = one ∷ two ∷ [];
  total_size = 30;
  max_total_size = 100;
  num_level_zero_tables_stall = 3;
  refs = [];
}

in_order : Ordered (one ∷ two ∷ [])
unfolding key_cmp
in_order = (refl, (refl, tt), (refl, tt, tt))

fresh_in_order : Ordered (fresh ∷ [])
unfolding key_cmp
fresh_in_order = (refl, tt, tt)

no_touch : All (λ t. ¬ (Touches fresh.smallest t)) (one ∷ two ∷ [])
no_touch = ((λ e. cc), ((λ e. cc), tt))

replace_tables-Ordered_example : Ordered (replace_tables (level_of 1) (fresh ∷ [])).tables
replace_tables-Ordered_example =
    replace_tables-Ordered (level_of 1) fresh [] in_order fresh_in_order no_touch

abbrev behind : Table
behind = table 4 (3 ∷ []) (4 ∷ []) 40

behind-IsTable : IsTable behind
unfolding key_cmp
behind-IsTable = refl

replace_tables_touching_example :
    Among one (replace_tables (level_of 1) (behind ∷ [])).tables
    × ¬ (Ordered (replace_tables (level_of 1) (behind ∷ [])).tables)
replace_tables_touching_example =
    replace_tables_touching (level_of 1) one behind [] (inl refl) refl in_order.0 behind-IsTable

abbrev query : KeyRange
query = record { left = 2 ∷ []; right = 4 ∷ []; inf = false }

query_proper : key_le query.left query.right ≡ true
unfolding key_cmp
query_proper = refl

overlapping_tables_lem_example :
    (between
        (overlapping_tables (level_of 1) query).0
        (overlapping_tables (level_of 1) query).1
        (one ∷ two ∷ [])
      ≡ retain (λ t. overlaps_with (range_of t) query) (one ∷ two ∷ []))
    × ((overlapping_tables (level_of 1) query).0 ≤ (overlapping_tables (level_of 1) query).1)
    × ((overlapping_tables (level_of 1) query).1 ≤ length (one ∷ two ∷ []))
overlapping_tables_lem_example =
    overlapping_tables_lem query query_proper refl (level_of 1) in_order

sizes_fit : (n : ℕ) → n < 2 ^ 8 → n < 2 ^ 64
sizes_fit n h = omega (arith, h)

abbrev level_zero_after : LevelHandler
level_zero_after = record (level_of 0) {
  tables = one ∷ two ∷ fresh ∷ [];
  total_size = 60;
  refs = incr_ref 3 ∷ [];
}

adds : try_add_level0_table (level_of 0) fresh ≡ some (true, level_zero_after)
unfolding try_add_level0_table join
adds = refl

validate_iff_example : (validate (level_of 1) ≡ none) ↔ Ordered (one ∷ two ∷ [])
validate_iff_example = validate_iff (level_of 1) one (two ∷ []) (omega arith) refl in_order.0

-- The bloom test says nothing.
abbrev no_bloom : Table → Key → Bool
no_bloom t k = false

-- A table that answers only for a key in its range.
abbrev seek_proper : Table → Key → Option IteratorItem
seek_proper t k =
    if key_le t.smallest k && key_le k t.biggest then some (t.smallest, default) else none

seek_in_range :
    (t : Table) (k : Key) (item : IteratorItem)
    → seek_proper t k ≡ some item
    → item.0 ≡ k
    → (key_le t.smallest k ≡ true) × (key_le k t.biggest ≡ true)
seek_in_range t k item e h = ground (arith, e)

get_table_for_key-first_hit_example :
    (get_table_for_key no_bloom seek_proper (level_of 1) (5 ∷ [])).0
    ≡ first_hit no_bloom seek_proper (one ∷ two ∷ []) (5 ∷ [])
get_table_for_key-first_hit_example =
    get_table_for_key-first_hit no_bloom seek_proper seek_in_range (level_of 1) (5 ∷ [])
      (omega arith) in_order

get-first_hit_example :
    (get no_bloom seek_proper (level_of 0 ∷ level_of 1 ∷ []) (5 ∷ [])).0
    ≡ value_of
        (first_hit no_bloom seek_proper (as_iterator (level_of 0 ∷ level_of 1 ∷ [])) (5 ∷ []))
get-first_hit_example =
    get-first_hit no_bloom seek_proper seek_in_range (level_of 0 ∷ level_of 1 ∷ []) (5 ∷ [])
      ((λ h. in_order), ((λ h. in_order), tt))
