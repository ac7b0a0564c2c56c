-- ===== src/Levels/Whole.antt =====
-- The levels together (src/levels.rs, `get`, `get_all_fids`, `as_iterator`, `validate`).
use badger_rs.Common.{ℕ}
use badger_rs.Common.{◌≡◌, refl, ◌≢◌, inl, inr, arith}
use badger_rs.Common.{Bool, true, Option, none, some}
use badger_rs.Common.{List, [], ◌∷◌, ◌++◌, map}
use badger_rs.Common.{◌==◌, if◌then◌else◌, Bool-cases, Option-cases}
use badger_rs.Common.{==→eq}
use badger_rs.Common.{All}
use badger_rs.Common.Keys.{Key, key_le}
use mathlib.Core.List.{reverse}
use badger_rs.Value.{ValueStruct}
use badger_rs.TableRef.{Table}
use badger_rs.LevelHandler.{LevelHandler, Fault, validate, close}
use badger_rs.LevelHandler.Order.{Ordered}
use badger_rs.LevelHandler.Lookup.{
  IteratorItem, or_else, get_table_for_key, first_hit, get_table_for_key-first_hit,
  get_table_for_key-newest,
}

unfoldable pub get_all_fids : List LevelHandler → List ℕ
get_all_fids [] = []
get_all_fids (h ∷ hs) = map (λ t. t.id) h.tables ++ get_all_fids hs

-- The tables in the order in which `as_iterator` lists their iterators.
abbrev pub tables_in_turn : LevelHandler → List Table
tables_in_turn h = if h.level == 0 then reverse h.tables else h.tables

unfoldable pub as_iterator : List LevelHandler → List Table
as_iterator [] = []
as_iterator (h ∷ hs) = tables_in_turn h ++ as_iterator hs

unfoldable pub validate_levels : List LevelHandler → Option Fault
validate_levels [] = none
validate_levels (h ∷ hs) = elim (validate h) [ none ↦ validate_levels hs | some f ↦ some f ]

unfoldable pub cleanup_levels : List LevelHandler → List LevelHandler
cleanup_levels [] = []
cleanup_levels (h ∷ hs) = close h ∷ cleanup_levels hs

abbrev pub value_of : Option IteratorItem → Option ValueStruct
value_of none = none
value_of (some item) = some item.1

module _ (does_not_have : Table → Key → Bool) (seek : Table → Key → Option IteratorItem) where
  -- The first level that has the key answers; the levels behind it are not asked.
  unfoldable pub get : List LevelHandler → Key → Option ValueStruct × List LevelHandler
  get [] key = (none, [])
  get (h ∷ hs) key =
      let one = get_table_for_key does_not_have seek h key in
      let rest = get hs key in
      elim one.0 [ none ↦ (rest.0, one.1 ∷ rest.1) | some item ↦ (some item.1, one.1 ∷ hs) ]

  first_hit-append :
      (ts us : List Table) (key : Key)
      → first_hit does_not_have seek (ts ++ us) key
        ≡ or_else (first_hit does_not_have seek ts key) (first_hit does_not_have seek us key)
  unfolding first_hit
  first_hit-append [] us key = refl
  first_hit-append (t ∷ ts) us key = ground (arith, first_hit-append ts us key)

  -- Levels above 0 are in order.
  abbrev pub InOrder : List LevelHandler → Type 0
  InOrder hs = All (λ (h : LevelHandler). h.level ≢ 0 → Ordered h.tables) hs

  module _
      (in_range : (t : Table) (k : Key) (item : IteratorItem)
        → seek t k ≡ some item
        → item.0 ≡ k
        → (key_le t.smallest k ≡ true) × (key_le k t.biggest ≡ true)) where
    level_hit :
        (h : LevelHandler) (key : Key)
        → (h.level ≢ 0 → Ordered h.tables)
        → (get_table_for_key does_not_have seek h key).0
          ≡ first_hit does_not_have seek (tables_in_turn h) key
    level_hit h key o = elim (Bool-cases (h.level == 0)) [
      | inl z ↦ rw z (get_table_for_key-newest does_not_have seek h key (==→eq _ _ z))
      | inr z ↦
          let above : h.level ≢ 0 = λ e. ground (arith, e, z) in
          rw z (get_table_for_key-first_hit does_not_have seek in_range h key above (o above))
    ]

    -- Looking a key up in the levels answers the value of the first table that has it, in the order
    -- of `as_iterator`: level 0 from the newest table, then the levels below. The levels above 0
    -- are in order, and a table answers only for keys in its range.
    pub get-first_hit :
        (hs : List LevelHandler) (key : Key)
        → InOrder hs
        → (get hs key).0 ≡ value_of (first_hit does_not_have seek (as_iterator hs) key)
    unfolding get as_iterator
    get-first_hit [] key o = unfold first_hit in refl
    get-first_hit (h ∷ hs) key o =
        rw (first_hit-append (tables_in_turn h) (as_iterator hs) key, ← level_hit h key o.0)
          (elim (Option-cases (get_table_for_key does_not_have seek h key).0) [
            | inl e ↦ rw (get, e) (get-first_hit hs key o.1)
            | inr (item, e) ↦ rw (get, e) refl
          ])
