-- ===== src/Manifest/Consistent.antt =====
-- The two views of a manifest, by table and by level, agree, and the counters count the tables.
use badger_rs.Manifest.{dispatch, Operation, create, delete, unknown, Change}
use badger_rs.Common.{ℕ, zero, suc, ◌+◌, ◌-◌, ◌%◌, ◌^◌, ◌≤◌, ◌<◌}
use badger_rs.Common.{◌≡◌, refl, ◌∙◌, ◌≢◌, inl, inr, arith}
use badger_rs.Common.{true, false, not, ◌&&◌, ◌||◌, none, some}
use badger_rs.Common.{List, [], ◌∷◌, ◌++◌}
use badger_rs.Common.{◌==◌, Bool-cases, Option-cases}
use badger_rs.Common.{length, replicate, All}
use badger_rs.Common.{length-append, length-replicate}
use badger_rs.Common.Maps.{
  is_some, found_or, find, remove_key, find-put, find-remove, DistinctKeys, put-DistinctKeys,
  remove-DistinctKeys, length-put, length-remove, set_insert, set_remove, contains-set_insert,
  contains-set_remove,
}
use badger_rs.Manifest.{
  Operation, create, delete, unknown, Change, Manifest, new, done, panic, modify, grow, has,
  apply_create, apply_delete, apply_manifest_change, is_done, apply_manifest_change_set,
}

pub record IsConsistent (m : Manifest) : Type 0 where
  pub views : (level id : ℕ) → has m.levels level id ≡ found_or (find id m.tables) level
  pub distinct : DistinctKeys m.tables
  pub counted : length m.tables + m.deletions ≡ m.creations

has-replicate : (n level id : ℕ) → has (replicate n []) level id ≡ false
unfolding has
has-replicate zero level id = refl
has-replicate (suc n) zero id = refl
has-replicate (suc n) (suc level) id = has-replicate n level id

has-append :
    (levels : List (List ℕ)) (n level id : ℕ)
    → has (levels ++ replicate n []) level id ≡ has levels level id
unfolding has
has-append [] n level id = has-replicate n level id
has-append (s ∷ ss) n zero id = refl
has-append (s ∷ ss) n (suc level) id = has-append ss n level id

has-grow :
    (k : ℕ) (levels : List (List ℕ)) (level id : ℕ)
    → has (grow k levels) level id ≡ has levels level id
unfolding grow
has-grow k levels level id = has-append levels _ level id

length-grow : (k : ℕ) (levels : List (List ℕ)) → k < length (grow k levels)
unfolding grow
length-grow k levels = omega (
  arith,
  length-append levels (replicate (k + 1 - length levels) []),
  length-replicate {A = List ℕ} (k + 1 - length levels) [],
)

has-modify_insert :
    (i : ℕ) (levels : List (List ℕ)) (a level id : ℕ)
    → i < length levels
    → has (modify i (set_insert a) levels) level id
      ≡ ((i == level && a == id) || has levels level id)
unfolding has modify
has-modify_insert i [] a level id h = absurd (omega arith)
has-modify_insert zero (s ∷ ss) a zero id h = contains-set_insert a id s
has-modify_insert zero (s ∷ ss) a (suc level) id h = ground arith
has-modify_insert (suc i) (s ∷ ss) a zero id h = ground arith
has-modify_insert (suc i) (s ∷ ss) a (suc level) id h =
    has-modify_insert i ss a level id (omega arith) ∙ ground arith

has-modify_remove :
    (i : ℕ) (levels : List (List ℕ)) (a level id : ℕ)
    → has (modify i (set_remove a) levels) level id
      ≡ (not (i == level && a == id) && has levels level id)
unfolding has modify
has-modify_remove i [] a level id = ground arith
has-modify_remove zero (s ∷ ss) a zero id = contains-set_remove a id s
has-modify_remove zero (s ∷ ss) a (suc level) id = ground arith
has-modify_remove (suc i) (s ∷ ss) a zero id = ground arith
has-modify_remove (suc i) (s ∷ ss) a (suc level) id =
    has-modify_remove i ss a level id ∙ ground arith

pub IsConsistent-new : IsConsistent new
unfolding has find
IsConsistent-new = record { views = λ level id. refl; distinct = tt; counted = omega arith }

create-IsConsistent :
    (m : Manifest) (id level : ℕ)
    → level < 2 ^ 8
    → IsConsistent m
    → IsConsistent (apply_create m id level).0
unfolding apply_create
create-IsConsistent m id level fits c = elim (Bool-cases (is_some (find id m.tables))) [
  | inl e ↦ rw e c
  | inr e ↦
      let low : level % 2 ^ 8 ≡ level = omega arith in
      rw (e, low)
        (record {
          views = λ l i.
              has-modify_insert level (grow level m.levels) id l i (length-grow level m.levels)
              ∙ rw (has-grow, find-put, c.views l i) (ground arith);
          distinct = put-DistinctKeys id level m.tables c.distinct;
          counted = omega (arith, length-put id level m.tables e, c.counted);
        })
]

delete-IsConsistent :
    (m : Manifest) (id : ℕ)
    → IsConsistent m
    → IsConsistent (apply_delete m id).0 × ((apply_delete m id).1 ≢ panic)
unfolding apply_delete
delete-IsConsistent m id c = elim (Option-cases (find id m.tables)) [
  | inl e ↦ rw e (c, λ p. cc)
  | inr (level, e) ↦
      let there : has m.levels level id ≡ true = c.views level id ∙ rw e (ground arith) in
      let one : length (remove_key id m.tables) + 1 ≡ length m.tables =
        length-remove id m.tables c.distinct (rw e refl) in
      rw (e, there)
        (
          record {
            views = λ l i.
                has-modify_remove level m.levels id l i
                ∙ rw (find-remove, c.views l i) (ground (arith, e));
            distinct = remove-DistinctKeys id m.tables c.distinct;
            counted = omega (arith, one, c.counted);
          },
          λ p. cc,
        )
]

-- A change that the program writes: its operation is known, and a created table stands on a level that
-- fits the byte it is kept in.
abbrev pub IsWritten : Change → Type 0
IsWritten c = (c.op ≢ unknown) × (c.op ≡ create → c.level < 2 ^ 8)

dispatch-IsConsistent :
    (op : Operation) (m : Manifest) (c : Change)
    → op ≢ unknown
    → (op ≡ create → c.level < 2 ^ 8)
    → IsConsistent m
    → IsConsistent (dispatch op m c).0 × ((dispatch op m c).1 ≢ panic)
unfolding dispatch
dispatch-IsConsistent create m c w f k =
    (create-IsConsistent m c.id c.level (f refl) k, unfold apply_create in λ p. ground arith)
dispatch-IsConsistent delete m c w f k = delete-IsConsistent m c.id k
dispatch-IsConsistent unknown m c w f k = absurd (w refl)

change-IsConsistent :
    (m : Manifest) (c : Change)
    → IsWritten c
    → IsConsistent m
    → IsConsistent (apply_manifest_change m c).0 × ((apply_manifest_change m c).1 ≢ panic)
unfolding apply_manifest_change
change-IsConsistent m c w k = dispatch-IsConsistent c.op m c w.0 w.1 k

-- Applying a change set to a manifest whose views by table and by level agree never panics, and
-- leaves a manifest whose views agree and whose counters count its tables, also where a change of
-- the set is refused. The changes are known operations on levels that fit a byte.
pub change_set-IsConsistent :
    (cs : List Change) (m : Manifest)
    → All IsWritten cs
    → IsConsistent m
    → IsConsistent (apply_manifest_change_set m cs).0 × ((apply_manifest_change_set m cs).1 ≢ panic)
unfolding apply_manifest_change_set
change_set-IsConsistent [] m w c = (c, λ p. cc)
change_set-IsConsistent (x ∷ xs) m w c =
    let first = change-IsConsistent m x w.0 c in
    elim (Bool-cases (is_done (apply_manifest_change m x).1)) [
      | inl e ↦ rw e (change_set-IsConsistent xs (apply_manifest_change m x).0 w.1 first.0)
      | inr e ↦ rw e first
    ]

delete_lost :
    (m : Manifest) (id level : ℕ)
    → find id m.tables ≡ some level
    → has m.levels level id ≡ false
    → (apply_delete m id).1 ≡ panic
unfolding apply_delete
delete_lost m id level e h = rw e (rw h refl)

-- In a manifest whose views agree, a new table created on level 256 or above and deleted again is a
-- panic.
pub wide_level_panics :
    (m : Manifest) (id level : ℕ)
    → IsConsistent m
    → find id m.tables ≡ none
    → 2 ^ 8 ≤ level
    → (apply_manifest_change_set m (
        record { id = id; level = level; op = create }
        ∷ record { id = id; level = 0; op = delete }
        ∷ [])).1
      ≡ panic
unfolding apply_manifest_change_set apply_manifest_change
wide_level_panics m id level c e h =
    let m1 = (apply_create m id level).0 in
    let fresh : is_some (find id m.tables) ≡ false = rw e refl in
    let made : (apply_create m id level).1 ≡ done = unfold apply_create in rw fresh refl in
    let kept : find id m1.tables ≡ some (level % 2 ^ 8) =
      unfold apply_create in rw fresh (rw find-put (ground arith)) in
    let lost : has m1.levels (level % 2 ^ 8) id ≡ false =
      unfold apply_create in
      rw fresh (
        rw
          (
            has-modify_insert level (grow level m.levels) id (level % 2 ^ 8) id
                (length-grow level m.levels),
            has-grow level m.levels (level % 2 ^ 8) id,
            c.views (level % 2 ^ 8) id,
            e,
          )
          (ground arith)) in
    rw made (rw (delete_lost m1 id (level % 2 ^ 8) kept lost) refl)
