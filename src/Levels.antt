-- ===== src/Levels.antt =====
-- Choosing and running compactions (src/levels.rs, `LevelsController`). The compaction status and the
-- levels are passed from step to step. An outer `none` is a panic. Building the new tables of a
-- compaction writes files; the tables are a parameter.
use badger_rs.Common.{ℕ, ◌-◌}
use badger_rs.Common.{Bool, true, false, Option, some}
use badger_rs.Common.{List, [], ◌∷◌, ◌++◌, map}
use badger_rs.Common.{leb, if◌then◌else◌, ◌>>=◌, ◌>>◌}
use badger_rs.Common.{guard}
use badger_rs.Common.{slice}
use badger_rs.Common.Slices.{sort_by}
use badger_rs.TableRef.{Table}
use badger_rs.Compaction.KeyRange.{KeyRange, info_range, range_of, get_range}
use badger_rs.Compaction.CompactDef.{CompactDef}
use badger_rs.Compaction.Status.{CompactStatus, compare_and_add, overlaps_with}
use badger_rs.LevelHandler.{
  LevelHandler, overlapping_tables, replace_tables, delete_tables, num_tables,
}
use badger_rs.Manifest.{Change, create, delete}
pub mod Fill
pub mod Apart
pub mod Run
pub mod Whole

-- What choosing a compaction answers: whether one was registered, its definition, and the status.
abbrev pub Filled : Type 0
Filled = Bool × (CompactDef × CompactStatus)

-- `tables[left..right]`
unfoldable pub bottom : LevelHandler → KeyRange → Option (List Table)
bottom h range = do
  let at : ℕ × ℕ = overlapping_tables h range
  guard (leb at.0 at.1)
  slice at.0 (at.1 - at.0) h.tables

-- The range of the tables below, or the given one if there are none.
abbrev pub range_below : List Table → KeyRange → Option KeyRange
range_below [] range = some range
range_below (t ∷ ts) range = get_range (t ∷ ts)

abbrev pub register : CompactStatus → CompactDef → Option Filled
register status cd = do (ok, status') ← compare_and_add status cd; some (ok, (cd, status'))

unfoldable pub fill_top : CompactStatus → CompactDef → List Table → Option Filled
fill_top status cd [] = some (false, (record cd { top = [] }, status))
fill_top status cd (t ∷ ts) = do
  kr ← get_range (t ∷ ts)
  bot ← bottom cd.next_level kr
  next_range ← range_below (cd.bot ++ bot) kr
  register status (record cd {
    top = t ∷ ts;
    this_range = info_range;
    bot = cd.bot ++ bot;
    next_range = next_range;
  })

-- All tables of level 0 take part.
unfoldable pub fill_tables_l0 : CompactStatus → CompactDef → Option Filled
unfolding fill_top
fill_tables_l0 status cd = fill_top status cd (cd.top ++ cd.this_level.tables)

-- With tables below, their range has to be free as well.
abbrev pub register_free : List Table → CompactStatus → CompactDef → Option Filled
register_free [] status cd = register status cd
register_free (_ ∷ _) status cd = do
  busy ← overlaps_with status cd.next_level.level cd.next_range
  if busy then some (false, (cd, status)) else register status cd

-- One table that is free on its level: the tables below it, and the registration.
unfoldable pub fill_from : CompactStatus → CompactDef → Table → Option Filled
fill_from status cd t = do
  let this_range = range_of t
  bot ← bottom cd.next_level this_range
  next_range ← range_below bot this_range
  let cd1 : CompactDef = record cd {
    this_size = t.size;
    this_range = this_range;
    top = t ∷ [];
    bot = bot;
    next_range = next_range;
  }
  register_free bot status cd1

-- A round of the loop: a table that is being compacted already is passed over.
unfoldable pub fill_round : CompactStatus → CompactDef → Table → Option Filled
fill_round status cd t = do
  busy ← overlaps_with status cd.this_level.level (range_of t)
  if busy then some (false, (cd, status)) else fill_from status cd t

unfoldable pub fill_loop : CompactStatus → CompactDef → List Table → Option Filled
fill_loop status cd [] = some (false, (cd, status))
fill_loop status cd (t ∷ ts) = do
  (ok, (cd', status')) ← fill_round status cd t
  let rest : Option Filled = fill_loop status' cd' ts
  if ok then some (true, (cd', status')) else rest

-- The biggest table comes first. Without tables the loop answers what the early return does.
abbrev pub bigger : Table → Table → Bool
bigger a b = leb b.size a.size

unfoldable pub fill_tables : CompactStatus → CompactDef → Option Filled
fill_tables status cd = fill_loop status cd (sort_by bigger cd.this_level.tables)

unfoldable pub is_level0_compactable : ℕ → LevelHandler → Bool
is_level0_compactable num_level_zero_tables h = leb num_level_zero_tables (num_tables h)

abbrev pub deletion : Table → Change
deletion t = record { id = t.id; level = 0; op = delete }

abbrev pub creation : ℕ → Table → Change
creation level t = record { id = t.id; level = level; op = create }

unfoldable pub build_change_set : CompactDef → List Table → List Change
build_change_set cd new_tables =
    map (creation cd.next_level.level) new_tables ++ (map deletion cd.top ++ map deletion cd.bot)
