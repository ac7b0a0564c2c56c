-- ===== src/Examples/Running.antt =====
-- A run of a compaction that moves one table down.
use badger_rs.Common.{ℕ, zero, suc}
use badger_rs.Common.{◌≡◌, refl, arith}
use badger_rs.Common.{Option, none, some}
use badger_rs.Common.{List, [], ◌∷◌}
use badger_rs.Common.{◌==◌, if◌then◌else◌}
use badger_rs.Common.Maps.{found_or, find}
use badger_rs.TableRef.{Table}
use badger_rs.Compaction.KeyRange.{range_of}
use badger_rs.Compaction.CompactDef.{CompactDef}
use badger_rs.LevelHandler.{LevelHandler}
use badger_rs.LevelHandler.Sizes.{SizesAgree}
use badger_rs.Manifest.{Manifest, done, apply_manifest_change_set, has}
use badger_rs.Manifest.Consistent.{IsConsistent}
use badger_rs.Manifest.File.{ManifestFile}
use badger_rs.Levels.Run.{
  Ran, apply_changes, move_changes, run_move, run_compact_def, run_compact_def-SizesAgree,
  move_changes-find,
}
use badger_rs.Examples.BigEndian.{big_endian}
use badger_rs.Examples.ChangeCodec.{change_codec}

abbrev moving : Table
moving = record { id = 7; smallest = 1 ∷ []; biggest = 2 ∷ []; size = 10 }

abbrev handler : ℕ → List Table → ℕ → LevelHandler
handler level tables total = record {
  level = level;
  tables = tables;
  total_size = total;
  max_total_size = 5;
  num_level_zero_tables_stall = 10;
  refs = [];
}

abbrev move_down : CompactDef
move_down = record {
  this_level = handler 1 (moving ∷ []) 10;
  next_level = handler 2 [] 0;
  top = moving ∷ [];
  bot = [];
  this_range = range_of moving;
  next_range = range_of moving;
  this_size = 10;
}

abbrev one_table : Manifest
one_table = record {
  levels = [] ∷ (7 ∷ []) ∷ [];
  tables = (7, 1) ∷ [];
  creations = 1;
  deletions = 0;
}

abbrev before : ManifestFile
before = record { file = []; position = 0; deletions_rewrite_threshold = 10; manifest = one_table }

abbrev build_none : CompactDef → Option (List Table)
build_none cd = none

abbrev ran : Ran
ran = apply_changes before move_down (move_changes move_down moving) (moving ∷ [])

runs : run_compact_def build_none before move_down ≡ some ran
unfolding run_compact_def run_move
runs = refl

run_compact_def-SizesAgree_example : SizesAgree ran.this_level × SizesAgree ran.next_level
run_compact_def-SizesAgree_example =
    run_compact_def-SizesAgree build_none before move_down ran (omega arith, tt) tt refl refl runs

seven_there : find 7 one_table.tables ≡ some 1
unfolding find
seven_there = refl

views : (level id : ℕ) → has one_table.levels level id ≡ found_or (find id one_table.tables) level
unfolding has find
views zero id = ground arith
views (suc zero) id = ground arith
views (suc (suc level)) id = ground arith

one_table-IsConsistent : IsConsistent one_table
one_table-IsConsistent = record {
  views = views;
  distinct = (unfold find in refl, tt);
  counted = omega arith;
}

move_changes-find_example :
    ((apply_manifest_change_set one_table (move_changes move_down moving)).1 ≡ done)
    × ((id : ℕ)
        → find id (apply_manifest_change_set one_table (move_changes move_down moving)).0.tables
          ≡ (if 7 == id then some 2 else find id one_table.tables))
move_changes-find_example =
    move_changes-find one_table move_down moving 1 one_table-IsConsistent seven_there (omega arith)
