-- ===== src/LevelHandler/Overlapping.antt =====
-- `overlapping_tables` finds exactly the tables that overlap the range.
use badger_rs.Common.{ℕ, suc, ◌-◌, ◌≤◌}
use badger_rs.Common.{◌≡◌, refl, sym, ap, ◌∙◌, inl, inr, arith}
use badger_rs.Common.{Bool, true, false, ◌&&◌}
use badger_rs.Common.{List, [], ◌∷◌}
use badger_rs.Common.{◌==◌, if◌then◌else◌, Bool-cases, Ordering-cases}
use badger_rs.Common.{length, take, drop, retain, All}
use badger_rs.Common.Keys.{
  Key, key_cmp, key_lt, key_le, key_eq, key_cmp_eq, key_le_trans, key_lt-not_le, key_le_total,
  key_lt_le, key_lt_le_trans, key_le_lt_trans,
}
use badger_rs.Common.Slices.{either_index, past_index, either-shift, past-shift, binary_search_by}
use badger_rs.TableRef.{Table}
use badger_rs.Compaction.KeyRange.{KeyRange, range_of, overlaps_with}
use badger_rs.LevelHandler.{LevelHandler, overlapping_tables}
use badger_rs.LevelHandler.Order.{Before, Ordered}

-- `tables[left..right]`
abbrev pub between : ℕ → ℕ → List Table → List Table
between l r ts = take (r - l) (drop l ts)

abbrev left_of : Key → List Table → ℕ
left_of k ts = either_index (binary_search_by (λ t. key_cmp t.biggest k) ts)

abbrev right_of : Key → List Table → ℕ
right_of k ts = past_index (binary_search_by (λ t. key_cmp t.smallest k) ts)

-- One step of the two searches.
left_step :
    (k : Key) (t : Table) (ts : List Table)
    → left_of k (t ∷ ts) ≡ (if key_lt t.biggest k then suc (left_of k ts) else 0)
unfolding binary_search_by
left_step k t ts = ground (arith, either-shift (binary_search_by (λ t. key_cmp t.biggest k) ts))

right_step :
    (k : Key) (t : Table) (ts : List Table)
    → right_of k (t ∷ ts)
      ≡ (if key_lt t.smallest k then suc (right_of k ts) else if key_eq t.smallest k then 1 else 0)
unfolding binary_search_by
right_step k t ts = ground (arith, past-shift (binary_search_by (λ t. key_cmp t.smallest k) ts))

module _ (r : KeyRange) (proper : key_le r.left r.right ≡ true) (bounded : r.inf ≡ false) where
  hit : Table → Bool
  hit t = overlaps_with (range_of t) r

  hit_lem : (t : Table) → hit t ≡ (key_le t.smallest r.right && key_le r.left t.biggest)
  unfolding hit overlaps_with
  hit_lem t = ground (arith, key_lt-not_le r.right t.smallest, key_lt-not_le t.biggest r.left)

  -- No table that begins behind the range is hit.
  none_behind :
      (t : Table) (ts : List Table)
      → All (Before t) ts
      → key_le r.right t.biggest ≡ true
      → retain hit ts ≡ []
  none_behind t [] a h = refl
  none_behind t (u ∷ us) a h =
      let miss : hit u ≡ false = ground (
        arith,
        hit_lem u,
        a.0,
        key_le_lt_trans r.right t.biggest u.smallest h,
        key_lt-not_le r.right u.smallest,
      ) in
      rw miss (none_behind t us a.1 h)

  All-reach :
      (t : Table) (us : List Table)
      → key_le r.left t.biggest ≡ true
      → All (Before t) us
      → Ordered us
      → All (λ u. key_le r.left u.biggest ≡ true) us
  All-reach t [] h a o = tt
  All-reach t (u ∷ us) h a o = (
    key_le_trans r.left t.biggest u.biggest h
        (key_le_trans t.biggest u.smallest u.biggest (key_lt_le _ _ a.0) o.0),
    All-reach t us h a.1 o.2,
  )

  -- Once the left end is reached, the tables up to the right end are hit.
  prefix_hit :
      (ts : List Table)
      → Ordered ts
      → All (λ t. key_le r.left t.biggest ≡ true) ts
      → (take (right_of r.right ts) ts ≡ retain hit ts) × (right_of r.right ts ≤ length ts)
  prefix_hit [] o a = unfold binary_search_by in (refl, omega arith)
  prefix_hit (t ∷ ts) o a = elim (Ordering-cases (key_cmp t.smallest r.right)) [
    | inl before ↦
        let e : right_of r.right (t ∷ ts) ≡ suc (right_of r.right ts) =
          ground (arith, right_step r.right t ts) in
        let h : hit t ≡ true = ground (arith, hit_lem t, a.0) in
        let ih = prefix_hit ts o.2 a.1 in rw (e, h) (ap (λ us. t ∷ us) ih.0, omega (arith, ih.1))
    | inr (inl same) ↦
        let e : right_of r.right (t ∷ ts) ≡ 1 = ground (arith, right_step r.right t ts) in
        let h : hit t ≡ true = ground (arith, hit_lem t, a.0) in
        let behind : key_le r.right t.biggest ≡ true = rw (key_cmp_eq _ _ same) at o.0 in
        rw (e, h, none_behind t ts o.1 behind) (refl, omega arith)
    | inr (inr after) ↦
        let e : right_of r.right (t ∷ ts) ≡ 0 = ground (arith, right_step r.right t ts) in
        let h : hit t ≡ false = ground (arith, hit_lem t) in
        let behind : key_le r.right t.biggest ≡ true =
          key_le_trans r.right t.smallest t.biggest (key_le_total t.smallest r.right (ground arith))
            o.0 in
        rw (e, h, none_behind t ts o.1 behind) (refl, omega arith)
  ]

  slice_hit :
      (ts : List Table)
      → Ordered ts
      → (between (left_of r.left ts) (right_of r.right ts) ts ≡ retain hit ts)
        × (left_of r.left ts ≤ right_of r.right ts)
        × (right_of r.right ts ≤ length ts)
  slice_hit [] o = unfold binary_search_by in (refl, omega arith, omega arith)
  slice_hit (t ∷ ts) o = elim (Bool-cases (key_lt t.biggest r.left)) [
    | inl before ↦
        let early : key_lt t.smallest r.right ≡ true =
          key_lt_le_trans t.smallest r.left r.right
            (key_le_lt_trans t.smallest t.biggest r.left o.0 before) proper in
        let el : left_of r.left (t ∷ ts) ≡ suc (left_of r.left ts) =
          ground (arith, left_step r.left t ts) in
        let er : right_of r.right (t ∷ ts) ≡ suc (right_of r.right ts) =
          ground (arith, right_step r.right t ts) in
        let h : hit t ≡ false = ground (arith, hit_lem t, key_lt-not_le t.biggest r.left) in
        let ih = slice_hit ts o.2 in
        let shrink : suc (right_of r.right ts) - suc (left_of r.left ts)
            ≡ right_of r.right ts - left_of r.left ts =
          omega arith in
        rw (el, er, h, shrink) (ih.0, omega (arith, ih.1), omega (arith, ih.2))
    | inr reached ↦
        let el : left_of r.left (t ∷ ts) ≡ 0 = ground (arith, left_step r.left t ts) in
        let here : key_le r.left t.biggest ≡ true =
          ground (arith, key_lt-not_le t.biggest r.left) in
        let p = prefix_hit (t ∷ ts) o (here, All-reach t ts here o.1 o.2) in
        let whole : right_of r.right (t ∷ ts) - 0 ≡ right_of r.right (t ∷ ts) = omega arith in
        rw (el, whole) (p.0, omega arith, p.1)
  ]

  -- On tables in order and for a proper bounded range, the interval that the two binary searches
  -- find lies inside the list and holds exactly the tables that overlap the range by the test of
  -- `KeyRange`.
  pub overlapping_tables_lem :
      (h : LevelHandler)
      → Ordered h.tables
      → (between (overlapping_tables h r).0 (overlapping_tables h r).1 h.tables
          ≡ retain (λ t. overlaps_with (range_of t) r) h.tables)
        × ((overlapping_tables h r).0 ≤ (overlapping_tables h r).1)
        × ((overlapping_tables h r).1 ≤ length h.tables)
  unfolding overlapping_tables hit
  overlapping_tables_lem h o =
      elim (Bool-cases (left_of r.left h.tables == right_of r.right h.tables)) [
        | inl same ↦
            let s = slice_hit h.tables o in
            let none_left : right_of r.right h.tables - left_of r.left h.tables ≡ 0 =
              ground arith in
            rw same (
              sym (ap (λ n. take n (drop (left_of r.left h.tables) h.tables)) none_left) ∙ s.0,
              omega arith,
              omega arith,
            )
        | inr differ ↦ rw differ (slice_hit h.tables o)
      ]
