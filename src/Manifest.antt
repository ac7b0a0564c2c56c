-- ===== src/Manifest.antt =====
-- The manifest (src/manifest.rs): which table stands on which level. A change set is applied change by
-- change; the manifest that an error leaves behind keeps the changes before it.
use badger_rs.Common.{ℕ, zero, suc, ◌+◌, ◌-◌, ◌%◌, ◌^◌}
use badger_rs.Common.{Bool, true, false, Option, none, some}
use badger_rs.Common.{List, [], ◌∷◌, ◌++◌, map}
use badger_rs.Common.{if◌then◌else◌}
use badger_rs.Common.{length, get_elem?, replicate, contains}
use badger_rs.Common.Maps.{is_some, find, put, remove_key, set_insert, set_remove}
pub mod Consistent
pub mod Rewrite
pub mod File

pub data Operation : Type 0 where
  create delete unknown : Operation

pub record Change : Type 0 where
  pub id : ℕ
  pub level : ℕ
  pub op : Operation

pub record Manifest : Type 0 where
  pub levels : List (List ℕ)
  pub tables : List (ℕ × ℕ)
  pub creations : ℕ
  pub deletions : ℕ

abbrev pub new : Manifest
new = record { levels = []; tables = []; creations = 0; deletions = 0 }

-- `failed` holds the id of the message: "table exists" or "removes non-existing table".
pub data Outcome : Type 0 where
  done : Outcome
  exists_already missing : ℕ → Outcome
  panic : Outcome

-- `build.levels[level].tables.insert(id)`, and the same for `remove`; the index is in range.
unfoldable pub modify : ℕ → (List ℕ → List ℕ) → List (List ℕ) → List (List ℕ)
modify i f [] = []
modify zero f (s ∷ ss) = f s ∷ ss
modify (suc i) f (s ∷ ss) = s ∷ modify i f ss

-- `for _ in build.levels.len()..=level { push }`
unfoldable pub grow : ℕ → List (List ℕ) → List (List ℕ)
grow level levels = levels ++ replicate (level + 1 - length levels) []

unfoldable pub has : List (List ℕ) → ℕ → ℕ → Bool
has levels level id = elim (get_elem? levels level) [ none ↦ false | some s ↦ contains id s ]

unfoldable pub apply_create : Manifest → ℕ → ℕ → Manifest × Outcome
apply_create m id level = if is_some (find id m.tables) then (m, exists_already id) else (
  record {
    levels = modify level (set_insert id) (grow level m.levels);
    tables = put id (level % 2 ^ 8) m.tables;
    creations = m.creations + 1;
    deletions = m.deletions;
  },
  done,
)

-- The two panics are the `unwrap` of a level that is not there and the assertion that the level held
-- the table.
unfoldable pub delete_found : Manifest → ℕ → Option ℕ → Manifest × Outcome
delete_found m id none = (m, missing id)
delete_found m id (some level) =
    if has m.levels level id
    then (
      record {
        levels = modify level (set_remove id) m.levels;
        tables = remove_key id m.tables;
        creations = m.creations;
        deletions = m.deletions + 1;
      },
      done,
    )
    else (record m { tables = remove_key id m.tables }, panic)

unfoldable pub apply_delete : Manifest → ℕ → Manifest × Outcome
unfolding delete_found
apply_delete m id = delete_found m id (find id m.tables)

unfoldable pub dispatch : Operation → Manifest → Change → Manifest × Outcome
dispatch create m c = apply_create m c.id c.level
dispatch delete m c = apply_delete m c.id
dispatch unknown m c = (m, panic)

unfoldable pub apply_manifest_change : Manifest → Change → Manifest × Outcome
unfolding dispatch
apply_manifest_change m c = dispatch c.op m c

abbrev pub is_done : Outcome → Bool
is_done done = true
is_done _ = false

unfoldable pub apply_manifest_change_set : Manifest → List Change → Manifest × Outcome
apply_manifest_change_set m [] = (m, done)
apply_manifest_change_set m (c ∷ cs) =
    let out = apply_manifest_change m c in
    let rest = apply_manifest_change_set out.0 cs in if is_done out.1 then rest else out

abbrev pub create_change : ℕ × ℕ → Change
create_change (id, level) = record { id = id; level = level; op = create }

unfoldable pub as_changes : Manifest → List Change
as_changes m = map create_change m.tables
