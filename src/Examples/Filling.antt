-- ===== src/Examples/Filling.antt =====
-- Runs of the choice of a compaction.
use badger_rs.Common.{ℕ, ◌+◌, ◌≤◌}
use badger_rs.Common.{◌≡◌, refl, arith}
use badger_rs.Common.{true, false, some}
use badger_rs.Common.{List, [], ◌∷◌}
use badger_rs.Common.Keys.{Key, key_cmp}
use badger_rs.Common.Slices.{binary_search_by, insert_sorted, sort_by}
use badger_rs.TableRef.{Table}
use badger_rs.Compaction.KeyRange.{KeyRange, info_range, overlaps_with, range_of, get_range, widen}
use badger_rs.Compaction.CompactDef.{CompactDef}
use badger_rs.Compaction.Status.{
  LevelCompactStatus, CompactStatus, compare_and_add, may_run, level_overlaps_with, add,
  incr_del_size,
}
use badger_rs.Compaction.Status
use badger_rs.Compaction.Status.Undo.{IsSeparate}
use badger_rs.LevelHandler.{LevelHandler, overlapping_tables}
use badger_rs.Levels.{
  Filled, bottom, fill_from, fill_round, fill_loop, fill_tables, fill_top, fill_tables_l0,
}
use badger_rs.Levels.Fill.{Round, fill_tables-Round}
use badger_rs.Levels.Apart.{fill_tables-IsSeparate, fill_tables_l0-IsSeparate}

abbrev table : ℕ → Key → Key → ℕ → Table
table id smallest biggest size = record {
  id = id;
  smallest = smallest;
  biggest = biggest;
  size = size;
}

abbrev small : Table
small = table 1 (1 ∷ []) (2 ∷ []) 10

abbrev big : Table
big = table 2 (5 ∷ []) (7 ∷ []) 20

abbrev under : Table
under = table 3 (6 ∷ []) (9 ∷ []) 30

abbrev handler : ℕ → List Table → LevelHandler
handler level tables = record {
  level = level;
  tables = tables;
  total_size = 30;
  max_total_size = 20;
  num_level_zero_tables_stall = 10;
  refs = [];
}

abbrev nothing : KeyRange
nothing = record { left = []; right = []; inf = false }

abbrev start : ℕ → CompactDef
start level = record {
  this_level = handler level (small ∷ big ∷ []);
  next_level = handler (level + 1) (under ∷ []);
  top = [];
  bot = [];
  this_range = nothing;
  next_range = nothing;
  this_size = 0;
}

abbrev idle : LevelCompactStatus
idle = record { ranges = []; del_size = 0 }

abbrev status : CompactStatus
status = idle ∷ idle ∷ idle ∷ []

abbrev chosen : Filled
chosen = (
  true,
  (
    record (start 1) {
      top = big ∷ [];
      bot = under ∷ [];
      this_range = range_of big;
      next_range = range_of under;
      this_size = 20;
    },
    idle
        ∷ record { ranges = range_of big ∷ []; del_size = 20 }
        ∷ record { ranges = range_of under ∷ []; del_size = 0 }
        ∷ [],
  ),
)

finds : fill_tables status (start 1) ≡ some chosen
unfolding fill_tables fill_loop fill_round fill_from bottom overlapping_tables get_range
    overlaps_with binary_search_by sort_by insert_sorted compare_and_add may_run level_overlaps_with
    add incr_del_size Status.overlaps_with key_cmp
finds = refl

fill_tables-Round_example : Round (λ t. t.size ≤ 20) status (start 1) chosen
fill_tables-Round_example =
    fill_tables-Round (λ t. t.size ≤ 20) status (start 1) chosen (omega arith, (omega arith, tt))
      finds

fill_tables-IsSeparate_example : IsSeparate chosen.1.1
fill_tables-IsSeparate_example =
    fill_tables-IsSeparate status (start 1) chosen (tt, (tt, (tt, tt))) finds

abbrev chosen_l0 : Filled
chosen_l0 = (
  true,
  (
    record (start 0) {
      top = small ∷ big ∷ [];
      bot = under ∷ [];
      this_range = info_range;
      next_range = range_of under;
    },
    record { ranges = info_range ∷ []; del_size = 0 }
        ∷ record { ranges = range_of under ∷ []; del_size = 0 }
        ∷ idle
        ∷ [],
  ),
)

finds_l0 : fill_tables_l0 status (start 0) ≡ some chosen_l0
unfolding fill_tables_l0 fill_top bottom overlapping_tables get_range overlaps_with binary_search_by
    compare_and_add may_run level_overlaps_with add incr_del_size widen key_cmp
finds_l0 = refl

fill_tables_l0-IsSeparate_example :
    (chosen_l0.0 ≡ true → compare_and_add status chosen_l0.1.0 ≡ some (true, chosen_l0.1.1))
    × ((chosen_l0.0 ≡ false → chosen_l0.1.1 ≡ status) × IsSeparate chosen_l0.1.1)
fill_tables_l0-IsSeparate_example =
    fill_tables_l0-IsSeparate status (start 0) chosen_l0 (tt, (tt, (tt, tt))) finds_l0
