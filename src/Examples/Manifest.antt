-- ===== src/Examples/Manifest.antt =====
-- Runs of the manifest and of its file.
use badger_rs.Common.{ℕ, ◌+◌, ◌^◌, ◌<◌}
use badger_rs.Common.{◌≡◌, refl, ◌≢◌, arith}
use badger_rs.Common.{false, none}
use badger_rs.Common.{List, [], ◌∷◌, ◌++◌}
use badger_rs.Common.{u32}
use badger_rs.Common.{length, take}
use badger_rs.Common.Maps.{find, put, remove_key, DistinctKeys, set_insert, set_remove}
use badger_rs.Manifest.{
  apply_delete, delete_found, grow, modify, has, Change, create, delete, Manifest, new, done, panic,
  apply_create, apply_manifest_change, apply_manifest_change_set, dispatch, as_changes,
}
use badger_rs.Manifest.Consistent.{
  IsConsistent, IsConsistent-new, change_set-IsConsistent, wide_level_panics,
}
use badger_rs.Manifest.Rewrite.{as_changes-rebuilds}
use badger_rs.Manifest.File.{
  ManifestFile, replayed, crashed, bad_magic, out_of_fuel, magic_text, replay_manifest_file,
  file_header, frame, rewrite_due, add_changes,
}
use badger_rs.Manifest.File.Replay.{
  frames, apply_all, Replayable, Readable, replay-whole, replay-cut_payload,
}
use badger_rs.Manifest.File.Append.{FileAgrees, add_changes-FileAgrees}
use badger_rs.Manifest.File.Rewritten.{add_changes-bad_magic}
use badger_rs.Manifest.File.Fuel.{replay-terminates}
use badger_rs.Examples.BigEndian.{big_endian, write_be}
use badger_rs.Examples.ChangeCodec.{change_codec, file_read, write_changes}

abbrev make : Change
make = record { id = 7; level = 1; op = create }

abbrev drop_it : Change
drop_it = record { id = 7; level = 0; op = delete }

change_set-IsConsistent_example :
    IsConsistent (apply_manifest_change_set new (make ∷ drop_it ∷ [])).0
    × ((apply_manifest_change_set new (make ∷ drop_it ∷ [])).1 ≢ panic)
change_set-IsConsistent_example =
    change_set-IsConsistent (make ∷ drop_it ∷ []) new
      (((λ e. cc), (λ e. omega arith)), (((λ e. cc), (λ e. omega arith)), tt)) IsConsistent-new

nothing_new : find 300 new.tables ≡ none
unfolding find
nothing_new = refl

wide_level_panics_example :
    (apply_manifest_change_set new (
      record { id = 300; level = 256; op = create }
      ∷ record { id = 300; level = 0; op = delete }
      ∷ [])).1
    ≡ panic
wide_level_panics_example = wide_level_panics new 300 256 IsConsistent-new nothing_new (omega arith)

abbrev two_tables : Manifest
two_tables = record {
  levels = [] ∷ (7 ∷ []) ∷ (9 ∷ []) ∷ [];
  tables = (7, 1) ∷ (9, 2) ∷ [];
  creations = 5;
  deletions = 3;
}

two_distinct : DistinctKeys two_tables.tables
unfolding find
two_distinct = (refl, (refl, tt))

as_changes-rebuilds_example :
    ((apply_manifest_change_set new (as_changes two_tables)).1 ≡ done)
    × (((id : ℕ)
          → find id (apply_manifest_change_set new (as_changes two_tables)).0.tables
            ≡ find id two_tables.tables)
        × (((apply_manifest_change_set new (as_changes two_tables)).0.creations ≡ 2)
            × ((apply_manifest_change_set new (as_changes two_tables)).0.deletions ≡ 0)))
as_changes-rebuilds_example =
    as_changes-rebuilds two_tables two_distinct (omega arith, (omega arith, tt))

abbrev sets : List (List Change)
sets = (make ∷ []) ∷ []

sets-Replayable : Replayable new sets
unfolding write_changes apply_manifest_change_set apply_manifest_change dispatch apply_create find
sets-Replayable = (omega arith, (refl, tt))

sets-Readable : Readable sets
unfolding write_changes
sets-Readable = (omega arith, tt)

replay-whole_example :
    replay_manifest_file (file_header ++ (frames sets ++ (1 ∷ 2 ∷ 3 ∷ [])))
    ≡ replayed (apply_all new sets) (8 + length (frames sets))
replay-whole_example =
    replay-whole sets (1 ∷ 2 ∷ 3 ∷ []) sets-Replayable sets-Readable (omega arith)

one_change_counted : length (write_changes (drop_it ∷ [])) < 2 ^ 32
unfolding write_changes
one_change_counted = omega arith

one_change_cut : 1 < length (write_changes (drop_it ∷ []))
unfolding write_changes
one_change_cut = omega arith

replay-cut_payload_example :
    replay_manifest_file (file_header ++ (frames sets ++ take (8 + 1) (frame (drop_it ∷ []))))
    ≡ crashed
replay-cut_payload_example =
    replay-cut_payload sets (drop_it ∷ []) 1 sets-Replayable one_change_counted one_change_cut

replay-terminates_example : replay_manifest_file (1 ∷ 2 ∷ 3 ∷ 4 ∷ 5 ∷ []) ≢ out_of_fuel
replay-terminates_example = replay-terminates (1 ∷ 2 ∷ 3 ∷ 4 ∷ 5 ∷ [])

abbrev open_file : ManifestFile
open_file = record {
  file = file_header ++ frames sets;
  position = length (file_header ++ frames sets);
  deletions_rewrite_threshold = 10000;
  manifest = apply_all new sets;
}

open_agrees : FileAgrees open_file sets
open_agrees = record { file = refl; position = refl; replayable = sets-Replayable; manifest = refl }

drop_done : (apply_manifest_change_set (apply_all new sets) (drop_it ∷ [])).1 ≡ done
unfolding apply_all apply_manifest_change_set apply_manifest_change dispatch apply_create
    apply_delete delete_found grow modify has set_insert set_remove find put remove_key
drop_done = refl

drop_kept :
    rewrite_due 10000 (apply_manifest_change_set (apply_all new sets) (drop_it ∷ [])).0 ≡ false
unfolding apply_all apply_manifest_change_set apply_manifest_change dispatch apply_create
    apply_delete delete_found grow modify has set_insert set_remove find put remove_key rewrite_due
drop_kept = refl

add_changes-FileAgrees_example :
    ((add_changes open_file (drop_it ∷ [])).1 ≡ done)
    × FileAgrees (add_changes open_file (drop_it ∷ [])).0 (sets ++ ((drop_it ∷ []) ∷ []))
add_changes-FileAgrees_example =
    add_changes-FileAgrees open_file sets (drop_it ∷ []) open_agrees drop_done drop_kept
      one_change_counted

abbrev rewritten_file : ManifestFile
rewritten_file = record {
  file = [];
  position = 0;
  deletions_rewrite_threshold = 10000;
  manifest = two_tables;
}

abbrev reopened_file : ManifestFile
reopened_file = record open_file { position = 0 }

not_magic : write_be 4 (u32 (length (write_changes (drop_it ∷ [])))) ≢ magic_text
unfolding write_changes write_be
not_magic = λ e. cc

add_changes-bad_magic_example :
    ((add_changes reopened_file (drop_it ∷ [])).1 ≡ done)
    × (replay_manifest_file (add_changes reopened_file (drop_it ∷ [])).0.file ≡ bad_magic)
add_changes-bad_magic_example =
    add_changes-bad_magic reopened_file (drop_it ∷ []) refl drop_done drop_kept not_magic
