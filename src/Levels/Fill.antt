-- ===== src/Levels/Fill.antt =====
-- What choosing a compaction registers, and what it leaves alone.
use badger_rs.Levels.{fill_tables, bigger, range_below}
use badger_rs.Levels.{fill_tables, bigger, bottom}
use badger_rs.Levels.{fill_tables, bigger, fill_from}
use badger_rs.Levels.{fill_tables, bigger, fill_loop}
use badger_rs.Levels.{fill_tables, bigger, fill_round}
use badger_rs.Levels.{fill_tables, bigger, range_of}
use badger_rs.Common.{◌≡◌, refl, sym, ap, ◌∙◌, ◌≢◌}
use badger_rs.Common.{Bool, true, false, Option, some}
use badger_rs.Common.{List, [], ◌∷◌}
use badger_rs.Common.{if◌then◌else◌}
use badger_rs.Common.{bind-some}
use badger_rs.Common.{All}
use badger_rs.Common.{some_inj}
use badger_rs.Common.Slices.{sort_by, All-sort_by}
use mathlib.Core.Path.{subst}
use badger_rs.TableRef.{Table}
use badger_rs.Compaction.CompactDef.{CompactDef}
use badger_rs.Compaction.Status.{CompactStatus, compare_and_add, overlaps_with}
use badger_rs.Compaction.Status.Undo.{refused}
use badger_rs.Levels.{fill_tables, bigger, Filled, register, register_free}

-- What a step of the choice did: it registered the definition that it answers, or it left the status as
-- it was.
pub record Step (status : CompactStatus) (cd : CompactDef) (out : Filled) : Type 0 where
  pub registered : out.0 ≡ true → compare_and_add status out.1.0 ≡ some (true, out.1.1)
  pub left_alone : out.0 ≡ false → out.1.1 ≡ status
  pub same : out.1.0 ≡ cd

added-Step :
    (status status' : CompactStatus) (cd : CompactDef) (ok : Bool)
    → compare_and_add status cd ≡ some (ok, status')
    → Step status cd (ok, (cd, status'))
added-Step status status' cd ok e = record {
  registered = λ yes. e ∙ ap (λ b. some (b, status')) yes;
  left_alone = λ no. refused status status' cd (e ∙ ap (λ b. some (b, status')) no);
  same = refl;
}

pub register-Step :
    (status : CompactStatus) (cd : CompactDef) (out : Filled)
    → register status cd ≡ some out
    → Step status cd out
register-Step status cd out e =
    let (made, (added, r)) = bind-some (compare_and_add status cd) _ out e in
    subst (Step status cd) (some_inj r) (added-Step status made.1 cd made.0 added)

pub alone-Step : (status : CompactStatus) (cd : CompactDef) → Step status cd (false, (cd, status))
alone-Step status cd = record {
  registered = λ no. absurd (false-true no);
  left_alone = λ no. refl;
  same = refl;
}
  where
    false-true : false ≢ true
    false-true e = cc

-- What may be busy is left alone, or is registered.
unless_busy :
    (busy : Bool) (status : CompactStatus) (cd : CompactDef) (next : Option Filled) (out : Filled)
    → (next ≡ some out → Step status cd out)
    → (if busy then some (false, (cd, status)) else next) ≡ some out
    → Step status cd out
unless_busy true status cd next out h e = subst (Step status cd) (some_inj e) (alone-Step status cd)
unless_busy false status cd next out h e = h e

register_free-Step :
    (bot : List Table) (status : CompactStatus) (cd : CompactDef) (out : Filled)
    → register_free bot status cd ≡ some out
    → Step status cd out
register_free-Step [] status cd out e = register-Step status cd out e
register_free-Step (b ∷ bs) status cd out e =
    let (busy, (_, r)) =
      bind-some (overlaps_with status cd.next_level.level cd.next_range) _ out e in
    unless_busy busy status cd (register status cd) out (register-Step status cd out) r

-- The definition of a compaction of one table: the table, its range and its size, the tables below, and
-- their range.
pub record IsDefinition (cd : CompactDef) (t : Table) (out : CompactDef) : Type 0 where
  pub levels : (out.this_level ≡ cd.this_level) × (out.next_level ≡ cd.next_level)
  pub top : out.top ≡ t ∷ []
  pub this_range : out.this_range ≡ range_of t
  pub this_size : out.this_size ≡ t.size
  pub below : bottom cd.next_level (range_of t) ≡ some out.bot
  pub next_range : range_below out.bot (range_of t) ≡ some out.next_range

-- A round, or the whole loop: the tables come from a list of which `P` holds.
pub record Round (P : Table → Type 0) (status : CompactStatus) (cd : CompactDef) (out : Filled)
    : Type 0 where
  pub registered :
      out.0 ≡ true
      → (compare_and_add status out.1.0 ≡ some (true, out.1.1))
        × ((t : Table) × (P t × IsDefinition cd t out.1.0))
  pub left_alone : out.0 ≡ false → out.1.1 ≡ status
  pub levels : (out.1.0.this_level ≡ cd.this_level) × (out.1.0.next_level ≡ cd.next_level)

fill_from-Round :
    (P : Table → Type 0) (status : CompactStatus) (cd : CompactDef) (t : Table) (out : Filled)
    → P t
    → fill_from status cd t ≡ some out
    → Round P status cd out
unfolding fill_from
fill_from-Round P status cd t out p e =
    let (bot, (below, e1)) = bind-some (bottom cd.next_level (range_of t)) _ out e in
    let (next_range, (range, e2)) = bind-some (range_below bot (range_of t)) _ out e1 in
    let cd1 : CompactDef = record cd {
      this_size = t.size;
      this_range = range_of t;
      top = t ∷ [];
      bot = bot;
      next_range = next_range;
    } in
    let s = register_free-Step bot status cd1 out e2 in
    let d : IsDefinition cd t cd1 = record {
      levels = (refl, refl);
      top = refl;
      this_range = refl;
      this_size = refl;
      below = below;
      next_range = range;
    } in
    record {
      registered = λ yes. (s.registered yes, (t, (p, subst (IsDefinition cd t) (sym s.same) d)));
      left_alone = s.left_alone;
      levels = (ap (λ c. c.this_level) s.same, ap (λ c. c.next_level) s.same);
    }

passed-Round :
    (P : Table → Type 0) (status : CompactStatus) (cd : CompactDef)
    → Round P status cd (false, (cd, status))
passed-Round P status cd = record {
  registered = λ no. absurd (false-true no);
  left_alone = λ no. refl;
  levels = (refl, refl);
}
  where
    false-true : false ≢ true
    false-true e = cc

fill_round-Round :
    (P : Table → Type 0) (status : CompactStatus) (cd : CompactDef) (t : Table) (out : Filled)
    → P t
    → fill_round status cd t ≡ some out
    → Round P status cd out
unfolding fill_round
fill_round-Round P status cd t out p e =
    let (busy, (_, r)) =
      bind-some (overlaps_with status cd.this_level.level (range_of t)) _ out e in
    choose busy r
  where
    choose :
        (busy : Bool)
        → (if busy then some (false, (cd, status)) else fill_from status cd t) ≡ some out
        → Round P status cd out
    choose true r = subst (Round P status cd) (some_inj r) (passed-Round P status cd)
    choose false r = fill_from-Round P status cd t out p r

-- After a round that registered nothing, the rest of the loop starts from what was there.
later-Round :
    (P : Table → Type 0) (status status' : CompactStatus) (cd cd' : CompactDef) (out : Filled)
    → Round P status cd (false, (cd', status'))
    → Round P status' cd' out
    → Round P status cd out
later-Round P status status' cd cd' out first rest =
    let here : status' ≡ status = first.left_alone refl in
    let back : (t : Table) → IsDefinition cd' t out.1.0 → IsDefinition cd t out.1.0 = λ t d.
      record {
        levels = (d.levels.0 ∙ first.levels.0, d.levels.1 ∙ first.levels.1);
        top = d.top;
        this_range = d.this_range;
        this_size = d.this_size;
        below = rw (← first.levels.1) d.below;
        next_range = d.next_range;
      } in
    record {
      registered = λ yes.
          let r = rest.registered yes in (rw (← here) r.0, (r.1.0, (r.1.1.0, back r.1.0 r.1.1.1)));
      left_alone = λ no. rest.left_alone no ∙ here;
      levels = (rest.levels.0 ∙ first.levels.0, rest.levels.1 ∙ first.levels.1);
    }

fill_loop-Round :
    (P : Table → Type 0) (ts : List Table) (status : CompactStatus) (cd : CompactDef) (out : Filled)
    → All P ts
    → fill_loop status cd ts ≡ some out
    → Round P status cd out
unfolding fill_loop
fill_loop-Round P [] status cd out a e =
    subst (Round P status cd) (some_inj e) (passed-Round P status cd)
fill_loop-Round P (t ∷ ts) status cd out a e =
    let ((ok, (cd', status')), (one, r)) = bind-some (fill_round status cd t) _ out e in
    choose ok cd' status' (fill_round-Round P status cd t (ok, (cd', status')) a.0 one)
      (λ h. fill_loop-Round P ts status' cd' out a.1 h) r
  where
    choose :
        (ok : Bool) (cd' : CompactDef) (status' : CompactStatus)
        → Round P status cd (ok, (cd', status'))
        → (fill_loop status' cd' ts ≡ some out → Round P status' cd' out)
        → (if ok then some (true, (cd', status')) else fill_loop status' cd' ts) ≡ some out
        → Round P status cd out
    choose true cd' status' first again r = subst (Round P status cd) (some_inj r) first
    choose false cd' status' first again r = later-Round P status status' cd cd' out first (again r)

-- `fill_tables` either registers the compaction of one table of the level, with the definition that
-- it answers (the table, its range and size, the tables below and their range), or leaves the
-- compaction status as it was.
pub fill_tables-Round :
    (P : Table → Type 0) (status : CompactStatus) (cd : CompactDef) (out : Filled)
    → All P cd.this_level.tables
    → fill_tables status cd ≡ some out
    → Round P status cd out
unfolding fill_tables
fill_tables-Round P status cd out a e =
    fill_loop-Round P (sort_by bigger cd.this_level.tables) status cd out
      (All-sort_by P bigger cd.this_level.tables a) e
