-- ===== src/LevelHandler/Lookup.antt =====
-- Looking a key up in one level (src/level_handler.rs, `get_table_for_key`). The bloom test and the
-- search inside a table are the table's, and come as parameters.
use badger_rs.Common.{ℕ, suc}
use badger_rs.Common.{◌≡◌, refl, ◌≢◌, inl, inr, arith}
use badger_rs.Common.{Bool, true, false, ◌&&◌, Option, none, some}
use badger_rs.Common.{List, [], ◌∷◌, ◌++◌}
use badger_rs.Common.{◌==◌, if◌then◌else◌, Bool-cases, Option-cases}
use badger_rs.Common.{get_elem?, All}
use badger_rs.Common.Keys.{
  Key, key_cmp, key_lt, key_le, key_eq, key_lt-not_le, key_le_lt_trans, key_eq_iff,
}
use badger_rs.Common.Slices.{either_index, either-shift, binary_search_by}
use badger_rs.Value.{ValueStruct}
use badger_rs.TableRef.{Table, RefEvent, incr_ref, decr_ref}
use badger_rs.LevelHandler.{LevelHandler}
use badger_rs.LevelHandler.Order.{Before, Ordered}
use mathlib.Core.List.{reverse}

abbrev pub IteratorItem : Type 0
IteratorItem = Key × ValueStruct

abbrev pub or_else : Option IteratorItem → Option IteratorItem → Option IteratorItem
or_else none b = b
or_else (some a) b = some a

module _ (does_not_have : Table → Key → Bool) (seek : Table → Key → Option IteratorItem) where
  -- The item if its key is the one that was asked for.
  abbrev pub same_key : Key → Option IteratorItem → Option IteratorItem
  same_key key none = none
  same_key key (some item) = if key_eq item.0 key then some item else none

  -- One table: a reference around the test and the search, and the one that the iterator takes.
  unfoldable pub probe : Table → Key → Option IteratorItem × List RefEvent
  probe t key =
      if does_not_have t key
      then (none, incr_ref t.id ∷ decr_ref t.id ∷ [])
      else (same_key key (seek t key), incr_ref t.id ∷ incr_ref t.id ∷ decr_ref t.id ∷ [])

  -- Level 0: the first table that has the key.
  unfoldable pub probe_all : List Table → Key → Option IteratorItem × List RefEvent
  probe_all [] key = (none, [])
  probe_all (t ∷ ts) key =
      let rest = probe_all ts key in
      let one = probe t key in
      elim one.0 [ none ↦ (rest.0, one.1 ++ rest.1) | some item ↦ (some item, one.1) ]

  unfoldable pub get_table_for_key : LevelHandler → Key → Option IteratorItem × LevelHandler
  get_table_for_key h key =
      if h.level == 0
      then (let out = probe_all (reverse h.tables) key in
          (out.0, record h { refs = h.refs ++ out.1 }))
      else (let index = either_index (binary_search_by (λ t. key_cmp t.biggest key) h.tables) in
          elim (get_elem? h.tables index) [
            | none ↦ (none, h)
            | some t ↦ let out = probe t key in (out.0, record h { refs = h.refs ++ out.1 })
          ])

  -- The specification: the first of the tables that answers, whatever the order of their keys.
  unfoldable pub first_hit : List Table → Key → Option IteratorItem
  first_hit [] key = none
  first_hit (t ∷ ts) key = or_else (probe t key).0 (first_hit ts key)

  probe_all-first_hit : (ts : List Table) (key : Key) → (probe_all ts key).0 ≡ first_hit ts key
  unfolding probe_all first_hit
  probe_all-first_hit [] key = refl
  probe_all-first_hit (t ∷ ts) key = ground (arith, probe_all-first_hit ts key)

  -- A table answers only for keys in its range.
  module _
      (in_range : (t : Table) (k : Key) (item : IteratorItem)
        → seek t k ≡ some item
        → item.0 ≡ k
        → (key_le t.smallest k ≡ true) × (key_le k t.biggest ≡ true)) where
    probe_outside :
        (t : Table) (key : Key)
        → (key_le t.smallest key && key_le key t.biggest) ≡ false
        → (probe t key).0 ≡ none
    unfolding probe
    probe_outside t key h = elim (Option-cases (seek t key)) [
      | inl e ↦ rw e (ground arith)
      | inr (item, e) ↦ elim (Bool-cases (key_eq item.0 key)) [
        | inl same ↦
            let w = in_range t key item e ((key_eq_iff item.0 key).0 same) in
            absurd (ground (arith, w.0, w.1))
        | inr other ↦ rw (e, other) (ground arith)
      ]
    ]

    -- No table that begins behind the key answers.
    none_later :
        (key : Key) (t : Table) (ts : List Table)
        → key_le key t.biggest ≡ true
        → All (Before t) ts
        → first_hit ts key ≡ none
    unfolding first_hit
    none_later key t [] h a = refl
    none_later key t (u ∷ us) h a =
        let miss : key_le u.smallest key ≡ false =
          ground
            (arith, key_lt-not_le key u.smallest, key_le_lt_trans key t.biggest u.smallest h a.0) in
        rw (probe_outside u key (ground arith)) (none_later key t us h a.1)

    abbrev at_index : ℕ → List Table → Key → Option IteratorItem
    at_index i ts key = elim (get_elem? ts i) [ none ↦ none | some t ↦ (probe t key).0 ]

    index_hit :
        (ts : List Table) (key : Key)
        → Ordered ts
        → at_index (either_index (binary_search_by (λ t. key_cmp t.biggest key) ts)) ts key
          ≡ first_hit ts key
    unfolding first_hit binary_search_by
    index_hit [] key o = refl
    index_hit (t ∷ ts) key o = elim (Bool-cases (key_lt t.biggest key)) [
      | inl before ↦
          let miss : (probe t key).0 ≡ none =
            probe_outside t key (ground (arith, key_lt-not_le t.biggest key)) in
          let step : either_index (binary_search_by (λ t. key_cmp t.biggest key) (t ∷ ts))
              ≡ suc (either_index (binary_search_by (λ t. key_cmp t.biggest key) ts)) =
            ground (arith, either-shift (binary_search_by (λ t. key_cmp t.biggest key) ts)) in
          rw (step, miss) (index_hit ts key o.2)
      | inr reached ↦
          let here : key_le key t.biggest ≡ true = ground (arith, key_lt-not_le t.biggest key) in
          let step : either_index (binary_search_by (λ t. key_cmp t.biggest key) (t ∷ ts)) ≡ 0 =
            ground arith in
          rw (step, none_later key t ts here o.1) (ground arith)
    ]

    -- On a level above 0 with its tables in order, the one table that the search picks answers what
    -- a scan of all tables would answer, given that a table answers only for keys in its range.
    pub get_table_for_key-first_hit :
        (h : LevelHandler) (key : Key)
        → h.level ≢ 0
        → Ordered h.tables
        → (get_table_for_key h key).0 ≡ first_hit h.tables key
    unfolding get_table_for_key
    get_table_for_key-first_hit h key l o =
        let low : (h.level == 0) ≡ false = ground arith in
        rw low (ground (arith, index_hit h.tables key o))

  -- On level 0 the tables are asked from the newest, at the end of the list, to the oldest, and the
  -- first that has the key answers.
  pub get_table_for_key-newest :
      (h : LevelHandler) (key : Key)
      → h.level ≡ 0
      → (get_table_for_key h key).0 ≡ first_hit (reverse h.tables) key
  unfolding get_table_for_key
  get_table_for_key-newest h key l =
      let low : (h.level == 0) ≡ true = ground arith in
      rw low (probe_all-first_hit (reverse h.tables) key)
