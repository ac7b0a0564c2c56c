-- ===== src/Levels/Run.antt =====
-- Running a compaction (src/levels.rs, `run_compact_def`): first the manifest, then the lower level, then
-- the upper one. Building the new tables is a parameter; it answers `none` for an error.
use badger_rs.Common.{ℕ, ◌%◌, ◌^◌, ◌<◌}
use badger_rs.Common.{◌≡◌, refl, ◌∙◌, inl, inr, arith}
use badger_rs.Common.{Bool, true, false, ◌&&◌, Option, none, some}
use badger_rs.Common.{List, [], ◌∷◌, ◌++◌, map}
use badger_rs.Common.{leb, ◌==◌, if◌then◌else◌, Bool-cases, ◌>>=◌}
use badger_rs.Common.{none-some, bind-some}
use badger_rs.Common.{length, All}
use badger_rs.Common.{some_inj}
use badger_rs.Common.Maps.{is_some, find, remove_key, find-put, find-remove}
use badger_rs.Common.Bytes.{ByteOrder}
use mathlib.Core.Path.{subst}
use badger_rs.TableRef.{Table, decr_ref}
use badger_rs.Compaction.CompactDef.{CompactDef}
use badger_rs.LevelHandler.{LevelHandler, delete_tables, replace_tables, drop_refs}
use badger_rs.LevelHandler.Sizes.{
  SizesAgree, SizeFits, delete_tables-SizesAgree, replace_tables-SizesAgree,
}
use badger_rs.Manifest.{
  Change, Manifest, Outcome, done, is_done, apply_manifest_change_set, apply_manifest_change,
  dispatch, apply_create, apply_delete, delete_found, has,
}
use badger_rs.Manifest.Consistent.{IsConsistent}
use badger_rs.Manifest.File.{Codec, ManifestFile, add_changes}
use badger_rs.Levels.{deletion, creation, build_change_set}

pub record Ran : Type 0 where
  pub manifest : ManifestFile
  pub this_level : LevelHandler
  pub next_level : LevelHandler
  pub outcome : Outcome

-- Without tables below, a table of a level above 0 moves down as it is.
abbrev pub is_move : CompactDef → Bool
is_move cd = leb 1 cd.this_level.level && length cd.bot == 0

unfoldable pub move_changes : CompactDef → Table → List Change
move_changes cd t = deletion t ∷ creation cd.next_level.level t ∷ []

module _ ⦃bo : ByteOrder⦄ ⦃codec : Codec⦄ where
  -- Levels change only if the manifest took the changes.
  unfoldable pub apply_changes : ManifestFile → CompactDef → List Change → List Table → Ran
  apply_changes mf cd changes new_tables =
      let out = add_changes mf changes in
      if is_done out.1
      then record {
        manifest = out.0;
        this_level = delete_tables cd.this_level (map (λ t. t.id) cd.top);
        next_level = replace_tables cd.next_level new_tables;
        outcome = out.1;
      }
      else record {
        manifest = out.0;
        this_level = cd.this_level;
        next_level = cd.next_level;
        outcome = out.1;
      }

  -- The assertion that one table moves: `none`.
  unfoldable pub run_move : ManifestFile → CompactDef → List Table → Option Ran
  unfolding apply_changes
  run_move mf cd [] = none
  run_move mf cd (t ∷ []) = some (apply_changes mf cd (move_changes cd t) (t ∷ []))
  run_move mf cd (_ ∷ _ ∷ _) = none

  -- The reference that building took is dropped at the end.
  unfoldable pub run_built : ManifestFile → CompactDef → List Table → Ran
  unfolding apply_changes
  run_built mf cd new_tables =
      let ran : Ran = apply_changes mf cd (build_change_set cd new_tables) new_tables in
      record ran { next_level = drop_refs ran.next_level new_tables }

  unfoldable pub run_compact_def :
      (CompactDef → Option (List Table)) → ManifestFile → CompactDef → Option Ran
  unfolding run_move run_built
  run_compact_def compact_build_tables mf cd =
      if is_move cd
      then run_move mf cd cd.top
      else (do new_tables ← compact_build_tables cd; some (run_built mf cd new_tables))

  drop_refs-same :
      (h : LevelHandler) (ts : List Table)
      → ((drop_refs h ts).tables ≡ h.tables) × ((drop_refs h ts).total_size ≡ h.total_size)
  unfolding drop_refs
  drop_refs-same h [] = (refl, refl)
  drop_refs-same h (t ∷ ts) = drop_refs-same (record h { refs = h.refs ++ (decr_ref t.id ∷ []) }) ts

  abbrev pub BothAgree : LevelHandler → LevelHandler → Type 0
  BothAgree this next = SizesAgree this × SizesAgree next

  apply_changes-BothAgree :
      (mf : ManifestFile) (cd : CompactDef) (changes : List Change) (new_tables : List Table)
      → All SizeFits cd.this_level.tables
      → All SizeFits cd.next_level.tables
      → BothAgree cd.this_level cd.next_level
      → BothAgree
          (apply_changes mf cd changes new_tables).this_level
          (apply_changes mf cd changes new_tables).next_level
  unfolding apply_changes
  apply_changes-BothAgree mf cd changes new_tables f g (a, b) =
      elim (Bool-cases (is_done (add_changes mf changes).1)) [
        | inl e ↦ rw e (
          delete_tables-SizesAgree cd.this_level (map (λ t. t.id) cd.top) f a,
          replace_tables-SizesAgree cd.next_level new_tables g b,
        )
        | inr e ↦ rw e (a, b)
      ]

  abbrev Agree : Ran → Type 0
  Agree r = BothAgree r.this_level r.next_level

  moved :
      (mf : ManifestFile) (cd : CompactDef) (top : List Table) (ran : Ran)
      → All SizeFits cd.this_level.tables
      → All SizeFits cd.next_level.tables
      → BothAgree cd.this_level cd.next_level
      → run_move mf cd top ≡ some ran
      → Agree ran
  unfolding run_move
  moved mf cd [] ran f g a e = absurd (none-some ran e)
  moved mf cd (t ∷ []) ran f g a e =
      subst Agree (some_inj e) (apply_changes-BothAgree mf cd (move_changes cd t) (t ∷ []) f g a)
  moved mf cd (t ∷ u ∷ us) ran f g a e = absurd (none-some ran e)

  built :
      (mf : ManifestFile) (cd : CompactDef) (new_tables : List Table)
      → All SizeFits cd.this_level.tables
      → All SizeFits cd.next_level.tables
      → BothAgree cd.this_level cd.next_level
      → Agree (run_built mf cd new_tables)
  unfolding run_built
  built mf cd new_tables f g a =
      let changes = build_change_set cd new_tables in
      let next = (apply_changes mf cd changes new_tables).next_level in
      let both = apply_changes-BothAgree mf cd changes new_tables f g a in
      let same = drop_refs-same next new_tables in (both.0, rw (same.0, same.1) both.1)

  -- Running a compaction, whether the manifest takes its changes or not, keeps the size counters of
  -- both levels at the sums of the sizes of their tables.
  pub run_compact_def-SizesAgree :
      (build : CompactDef → Option (List Table)) (mf : ManifestFile) (cd : CompactDef) (ran : Ran)
      → All SizeFits cd.this_level.tables
      → All SizeFits cd.next_level.tables
      → SizesAgree cd.this_level
      → SizesAgree cd.next_level
      → run_compact_def build mf cd ≡ some ran
      → SizesAgree ran.this_level × SizesAgree ran.next_level
  unfolding run_compact_def
  run_compact_def-SizesAgree build mf cd ran f g a b e = elim (Bool-cases (is_move cd)) [
    | inl m ↦ moved mf cd cd.top ran f g (a, b) (rw m at e)
    | inr m ↦
        let (new_tables, (_, r)) = bind-some (build cd) _ ran (rw m at e) in
        subst Agree (some_inj r) (built mf cd new_tables f g (a, b))
  ]

-- In a manifest whose views agree, the changes that move a table down apply, put the table on the
-- next level, which fits its byte, and leave every other table where it is.
pub move_changes-find :
    (m : Manifest) (cd : CompactDef) (t : Table) (level : ℕ)
    → IsConsistent m
    → find t.id m.tables ≡ some level
    → cd.next_level.level < 2 ^ 8
    → ((apply_manifest_change_set m (move_changes cd t)).1 ≡ done)
      × ((id : ℕ)
          → find id (apply_manifest_change_set m (move_changes cd t)).0.tables
            ≡ (if t.id == id then some cd.next_level.level else find id m.tables))
unfolding move_changes apply_manifest_change_set apply_manifest_change dispatch apply_create
    apply_delete delete_found
move_changes-find m cd t level c at fits =
    let there : has m.levels level t.id ≡ true = c.views level t.id ∙ rw at (ground arith) in
    let gone : is_some (find t.id (remove_key t.id m.tables)) ≡ false =
      rw find-remove (ground arith) in
    let low : cd.next_level.level % 2 ^ 8 ≡ cd.next_level.level = omega (arith, fits) in
    rw (at, there, gone, low) (refl, λ id. rw (find-put, find-remove) (ground arith))
