-- ===== src/LevelHandler/Validate.antt =====
-- `validate` accepts a level exactly when its tables are in order.
use badger_rs.Common.{ℕ, ◌+◌}
use badger_rs.Common.{◌≡◌, refl, ◌≢◌, ◌↔◌, arith}
use badger_rs.Common.{false, none}
use badger_rs.Common.{List, [], ◌∷◌}
use badger_rs.Common.{◌==◌}
use badger_rs.Common.Keys.{key_lt-not_le}
use badger_rs.TableRef.{Table}
use badger_rs.LevelHandler.{LevelHandler, validate, validate_from}
use badger_rs.LevelHandler.Order.{IsTable, Before, Ordered, All-Before-trans}

validate_from_sound :
    (j : ℕ) (t : Table) (ts : List Table)
    → IsTable t
    → validate_from j t ts ≡ none
    → Ordered (t ∷ ts)
unfolding validate_from
validate_from_sound j t [] i h = (i, tt, tt)
validate_from_sound j t (u ∷ us) i h =
    let first : Before t u = ground (arith, key_lt-not_le t.biggest u.smallest) in
    let own : IsTable u = ground (arith, key_lt-not_le u.biggest u.smallest) in
    let o = validate_from_sound (j + 1) u us own (ground arith) in
    (i, (first, All-Before-trans t u us first own o.1), o)

validate_from_complete :
    (j : ℕ) (t : Table) (ts : List Table) → Ordered (t ∷ ts) → validate_from j t ts ≡ none
unfolding validate_from
validate_from_complete j t [] o = refl
validate_from_complete j t (u ∷ us) o = ground (
  arith,
  o.1.0,
  o.2.0,
  key_lt-not_le t.biggest u.smallest,
  key_lt-not_le u.biggest u.smallest,
  validate_from_complete (j + 1) u us o.2,
)

-- On a level above 0 whose first table is no empty range, `validate` reports no fault exactly when
-- every table is a range and ends before each later one begins.
pub validate_iff :
    (h : LevelHandler) (t : Table) (ts : List Table)
    → h.level ≢ 0
    → h.tables ≡ t ∷ ts
    → IsTable t
    → (validate h ≡ none) ↔ Ordered h.tables
unfolding validate
validate_iff h t ts l e i =
    let low : (h.level == 0) ≡ false = ground arith in
    rw (low, e) (λ v. validate_from_sound 1 t ts i v, λ o. validate_from_complete 1 t ts o)
