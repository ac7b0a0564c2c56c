-- ===== src/Examples/Compaction.antt =====
-- Runs of the ranges and of the compaction status.
use badger_rs.Common.{ℕ}
use badger_rs.Common.{◌≡◌, refl, ◌↔◌, arith}
use badger_rs.Common.{true, false, some}
use badger_rs.Common.{List, [], ◌∷◌}
use badger_rs.Common.{All}
use badger_rs.Common.Keys.{Key, key_cmp}
use badger_rs.TableRef.{Table}
use badger_rs.LevelHandler.{LevelHandler}
use badger_rs.Compaction.KeyRange.{KeyRange, info_range, equals, overlaps_with, get_range}
use badger_rs.Compaction.KeyRange.Overlap.{
  IsProper, contains_key, overlaps_with_iff, equals-left_only,
}
use badger_rs.Compaction.KeyRange.Cover.{Covers, Within, get_range_least}
use badger_rs.Compaction.CompactDef.{CompactDef}
use badger_rs.Compaction.Status.{
  LevelCompactStatus, CompactStatus, compare_and_add, delete, may_run, level_overlaps_with, add,
  incr_del_size,
}
use badger_rs.Compaction.Status.Undo.{
  IsSeparate, compare_and_add-IsSeparate, delete-compare_and_add,
}

abbrev low : KeyRange
low = record { left = 1 ∷ []; right = 4 ∷ []; inf = false }

abbrev high : KeyRange
high = record { left = 5 ∷ []; right = 9 ∷ []; inf = false }

low-IsProper : IsProper low
unfolding key_cmp
low-IsProper = refl

high-IsProper : IsProper high
unfolding key_cmp
high-IsProper = refl

overlaps_with_iff_example :
    (overlaps_with low high ≡ true)
    ↔ ((k : Key) × (contains_key low k ≡ true) × (contains_key high k ≡ true))
overlaps_with_iff_example = overlaps_with_iff low high low-IsProper high-IsProper

equals-left_only_example : (equals info_range low ≡ true) ↔ (◌≡◌ {A = Key} [] (1 ∷ []))
equals-left_only_example = equals-left_only info_range low

abbrev first_table : Table
first_table = record { id = 1; smallest = 3 ∷ []; biggest = 4 ∷ []; size = 10 }

abbrev second_table : Table
second_table = record { id = 2; smallest = 1 ∷ []; biggest = 3 ∷ []; size = 20 }

get_range_least_example :
    (r : KeyRange) × (get_range (first_table ∷ second_table ∷ []) ≡ some r)
    × All (Covers r) (first_table ∷ second_table ∷ [])
    × ((s : KeyRange) → All (Covers s) (first_table ∷ second_table ∷ []) → Within r s)
get_range_least_example = get_range_least first_table (second_table ∷ [])

abbrev handler : ℕ → List Table → LevelHandler
handler level tables = record {
  level = level;
  tables = tables;
  total_size = 30;
  max_total_size = 20;
  num_level_zero_tables_stall = 10;
  refs = [];
}

abbrev compaction : CompactDef
compaction = record {
  this_level = handler 1 (first_table ∷ []);
  next_level = handler 2 (second_table ∷ []);
  top = first_table ∷ [];
  bot = second_table ∷ [];
  this_range = low;
  next_range = low;
  this_size = 10;
}

abbrev idle : LevelCompactStatus
idle = record { ranges = []; del_size = 0 }

abbrev busy : LevelCompactStatus
busy = record { ranges = high ∷ []; del_size = 0 }

abbrev status : CompactStatus
status = idle ∷ busy ∷ idle ∷ []

abbrev status_after : CompactStatus
status_after =
    idle
    ∷ record { ranges = high ∷ low ∷ []; del_size = 10 }
    ∷ record { ranges = low ∷ []; del_size = 0 }
    ∷ []

admits : compare_and_add status compaction ≡ some (true, status_after)
unfolding compare_and_add may_run level_overlaps_with overlaps_with add incr_del_size key_cmp
admits = refl

compare_and_add-IsSeparate_example : IsSeparate status_after
compare_and_add-IsSeparate_example =
    compare_and_add-IsSeparate status status_after compaction true (tt, ((tt, tt), (tt, tt))) admits

All-IsProper : All (λ (s : LevelCompactStatus). All IsProper s.ranges) status
unfolding key_cmp
All-IsProper = (tt, ((refl, tt), (tt, tt)))

delete-compare_and_add_example : delete status_after compaction ≡ some status
delete-compare_and_add_example =
    delete-compare_and_add status status_after compaction low-IsProper low-IsProper All-IsProper
      (omega arith, (omega arith, (omega arith, tt))) (omega arith) admits
