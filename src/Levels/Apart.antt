-- ===== src/Levels/Apart.antt =====
-- Choosing a compaction keeps the registered ranges apart.
use badger_rs.Common.{◌≡◌, inl, inr}
use badger_rs.Common.{true, false, some}
use badger_rs.Common.{List, [], ◌∷◌, ◌++◌}
use badger_rs.Common.{Bool-cases}
use badger_rs.Common.{bind-some}
use badger_rs.Common.{All}
use badger_rs.Common.{some_inj}
use badger_rs.TableRef.{Table}
use badger_rs.Compaction.KeyRange.{get_range}
use badger_rs.Compaction.CompactDef.{CompactDef}
use badger_rs.Compaction.Status.{CompactStatus, compare_and_add}
use badger_rs.Compaction.Status.Undo.{IsSeparate, compare_and_add-IsSeparate}
use badger_rs.Levels.{Filled, bottom, range_below, fill_tables, fill_top, fill_tables_l0}
use mathlib.Core.Path.{subst}
use badger_rs.Levels.Fill.{alone-Step, Step, register-Step, fill_tables-Round}

apart :
    (status : CompactStatus) (out : Filled)
    → IsSeparate status
    → (out.0 ≡ true → compare_and_add status out.1.0 ≡ some (true, out.1.1))
    → (out.0 ≡ false → out.1.1 ≡ status)
    → IsSeparate out.1.1
apart status out sep added alone = elim (Bool-cases out.0) [
  | inl t ↦ compare_and_add-IsSeparate status out.1.1 out.1.0 true sep (added t)
  | inr f ↦ rw (alone f) sep
]

-- Whatever `fill_tables` answers, the ranges registered on each level stay apart.
pub fill_tables-IsSeparate :
    (status : CompactStatus) (cd : CompactDef) (out : Filled)
    → IsSeparate status
    → fill_tables status cd ≡ some out
    → IsSeparate out.1.1
fill_tables-IsSeparate status cd out sep e =
    let r = fill_tables-Round (λ t. Unit) status cd out (all_unit cd.this_level.tables) e in
    apart status out sep (λ t. (r.registered t).0) r.left_alone
  where
    all_unit : (ts : List Table) → All (λ t. Unit {0}) ts
    all_unit [] = tt
    all_unit (t ∷ ts) = (tt, all_unit ts)

fill_top-Step :
    (status : CompactStatus) (cd : CompactDef) (top : List Table) (out : Filled)
    → fill_top status cd top ≡ some out
    → (cd1 : CompactDef) × Step status cd1 out
unfolding fill_top
fill_top-Step status cd [] out e =
    (record cd { top = [] }, subst (Step status _) (some_inj e) (alone-Step status _))
fill_top-Step status cd (t ∷ ts) out e =
    let (kr, (_, e1)) = bind-some (get_range (t ∷ ts)) _ out e in
    let (bot, (_, e2)) = bind-some (bottom cd.next_level kr) _ out e1 in
    let (next_range, (_, e3)) = bind-some (range_below (cd.bot ++ bot) kr) _ out e2 in
    (_, register-Step status _ out e3)

-- `fill_tables_l0` registers the definition that it answers or leaves the status as it was, and the
-- ranges registered on each level stay apart.
pub fill_tables_l0-IsSeparate :
    (status : CompactStatus) (cd : CompactDef) (out : Filled)
    → IsSeparate status
    → fill_tables_l0 status cd ≡ some out
    → (out.0 ≡ true → compare_and_add status out.1.0 ≡ some (true, out.1.1))
      × ((out.0 ≡ false → out.1.1 ≡ status) × IsSeparate out.1.1)
unfolding fill_tables_l0
fill_tables_l0-IsSeparate status cd out sep e =
    let s = (fill_top-Step status cd (cd.top ++ cd.this_level.tables) out e).1 in
    (s.registered, (s.left_alone, apart status out sep s.registered s.left_alone))
