-- ===== src/LevelHandler/Touching.antt =====
-- What `replace_tables` does to a table that ends where the new tables begin: it stays, and the level
-- is no longer in order.
use badger_rs.Common.{◌≡◌, ◌⊎◌, inl, inr, arith}
use badger_rs.Common.{Bool, true, not}
use badger_rs.Common.{List, [], ◌∷◌, ◌++◌}
use badger_rs.Common.{Bool-cases}
use badger_rs.Common.{retain, All}
use badger_rs.Common.Keys.{key_le_refl, key_lt_le_trans, key_le_lt_trans, key_lt_irrefl}
use badger_rs.Common.Slices.{insert_sorted, sort_by}
use mathlib.Core.Path.{subst}
use badger_rs.TableRef.{Table}
use badger_rs.LevelHandler.{LevelHandler, replace_tables, replaced, join_all, last_of, by_smallest}
use badger_rs.LevelHandler.Sizes.{sweep-kept}
use badger_rs.LevelHandler.Order.{IsTable, Ordered, Apart}
use badger_rs.LevelHandler.Replace.{AllApart, Ordered-AllApart, Touches}

-- The converse ways: what is apart in a longer list, is apart in its parts.
AllApart-parts : (ts us : List Table) → AllApart (ts ++ us) → All (λ t. All (Apart t) us) ts
AllApart-parts [] us a = tt
AllApart-parts (t ∷ ts) us a = (later ts a.1, AllApart-parts ts us a.2)
  where
    later : (vs : List Table) → All (Apart t) (vs ++ us) → All (Apart t) us
    later [] b = b
    later (v ∷ vs) b = later vs b.1

insert-All :
    (P : Table → Type 0) (t : Table) (ts : List Table)
    → All P (insert_sorted by_smallest t ts)
    → P t × All P ts
unfolding insert_sorted
insert-All P t [] a = a
insert-All P t (u ∷ us) a = elim (Bool-cases (by_smallest t u)) [
  | inl e ↦ rw e at a
  | inr e ↦
      let b : P u × All P (insert_sorted by_smallest t us) = rw e at a in
      let (p, rest) = insert-All P t us b.1 in (p, (b.0, rest))
]

insert-AllApart :
    (t : Table) (ts : List Table) → AllApart (insert_sorted by_smallest t ts) → AllApart (t ∷ ts)
unfolding insert_sorted
insert-AllApart t [] a = a
insert-AllApart t (u ∷ us) a = elim (Bool-cases (by_smallest t u)) [
  | inl e ↦ rw e at a
  | inr e ↦
      let b : AllApart (u ∷ insert_sorted by_smallest t us) = rw e at a in
      let rest = insert-AllApart t us b.2 in
      let (first, others) = insert-All (Apart u) t us b.1 in
      (rest.0, (ground (arith, first), rest.1), (b.0, others, rest.2))
]

sort-All : (P : Table → Type 0) (ts : List Table) → All P (sort_by by_smallest ts) → All P ts
unfolding sort_by
sort-All P [] a = tt
sort-All P (t ∷ ts) a =
    let (p, rest) = insert-All P t (sort_by by_smallest ts) a in (p, sort-All P ts rest)

sort-AllApart : (ts : List Table) → AllApart (sort_by by_smallest ts) → AllApart ts
unfolding sort_by
sort-AllApart [] a = tt
sort-AllApart (t ∷ ts) a =
    let b = insert-AllApart t (sort_by by_smallest ts) a in
    (b.0, sort-All (Apart t) ts b.1, sort-AllApart ts b.2)

-- `t` is one of the tables.
abbrev pub Among : Table → List Table → Type 0
Among t [] = ⊥
Among t (u ∷ us) = (u ≡ t) ⊎ Among t us

Among-All : (P : Table → Type 0) (t : Table) (ts : List Table) → Among t ts → All P ts → P t
Among-All P t [] m a = absurd m
Among-All P t (u ∷ us) (inl e) a = subst P e a.0
Among-All P t (u ∷ us) (inr m) a = Among-All P t us m a.1

Among-append : (t : Table) (ts us : List Table) → Among t ts → Among t (ts ++ us)
Among-append t [] us m = absurd m
Among-append t (u ∷ ts) us (inl e) = inl e
Among-append t (u ∷ ts) us (inr m) = inr (Among-append t ts us m)

Among-retain :
    (keep : Table → Bool) (t : Table) (ts : List Table)
    → keep t ≡ true
    → Among t ts
    → Among t (retain keep ts)
Among-retain keep t [] k m = absurd m
Among-retain keep t (u ∷ us) k (inl e) = let kept : keep u ≡ true = rw e k in rw kept (inl e)
Among-retain keep t (u ∷ us) k (inr m) = elim (Bool-cases (keep u)) [
  | inl e ↦ rw e (inr (Among-retain keep t us k m))
  | inr e ↦ rw e (Among-retain keep t us k m)
]

Among-insert :
    (t u : Table) (ts : List Table)
    → (u ≡ t) ⊎ Among t ts
    → Among t (insert_sorted by_smallest u ts)
unfolding insert_sorted
Among-insert t u [] m = m
Among-insert t u (x ∷ xs) (inl f) = elim (Bool-cases (by_smallest u x)) [
  | inl e ↦ rw e (inl f)
  | inr e ↦ rw e (inr (Among-insert t u xs (inl f)))
]
Among-insert t u (x ∷ xs) (inr (inl f)) = elim (Bool-cases (by_smallest u x)) [
  | inl e ↦ rw e (inr (inl f))
  | inr e ↦ rw e (inl f)
]
Among-insert t u (x ∷ xs) (inr (inr f)) = elim (Bool-cases (by_smallest u x)) [
  | inl e ↦ rw e (inr (inr f))
  | inr e ↦ rw e (inr (Among-insert t u xs (inr f)))
]

Among-sort : (t : Table) (ts : List Table) → Among t ts → Among t (sort_by by_smallest ts)
unfolding sort_by
Among-sort t [] m = absurd m
Among-sort t (u ∷ us) (inl e) = Among-insert t u (sort_by by_smallest us) (inl e)
Among-sort t (u ∷ us) (inr m) = Among-insert t u (sort_by by_smallest us) (inr (Among-sort t us m))

touching_meet : (t n : Table) → Touches n.smallest t → IsTable t → IsTable n → ¬ (Apart t n)
touching_meet t n touch i j a = ground (
  arith,
  touch,
  key_lt_irrefl t.biggest,
  key_le_lt_trans n.smallest n.biggest t.smallest,
  key_lt_le_trans n.smallest t.smallest t.biggest,
)

-- A table of the level that ends exactly where the new tables begin is kept, and the level is then
-- out of order. The range of this table, and that of the first new table, is not reversed.
pub replace_tables_touching :
    (h : LevelHandler) (t n : Table) (ns : List Table)
    → Among t h.tables
    → Touches n.smallest t
    → IsTable t
    → IsTable n
    → Among t (replace_tables h (n ∷ ns)).tables × ¬ (Ordered (replace_tables h (n ∷ ns)).tables)
unfolding replace_tables
replace_tables_touching h t n ns m touch i j =
    let r = (last_of n ns).biggest in
    let keep : Table → Bool = λ u. not (replaced n.smallest r u) in
    let kept : keep t ≡ true =
      unfold replaced in rw touch (ground (arith, key_le_refl n.smallest)) in
    let there = Among-retain keep t h.tables kept m in
    rw (sweep-kept (replaced n.smallest r) h.tables (join_all h (n ∷ ns))) (
      Among-sort t _ (Among-append t (retain keep h.tables) (n ∷ ns) there),
      λ o.
          let apart =
            AllApart-parts (retain keep h.tables) (n ∷ ns)
              (sort-AllApart (retain keep h.tables ++ (n ∷ ns)) (Ordered-AllApart _ o)) in
          let both = Among-All (λ u. All (Apart u) (n ∷ ns)) t _ there apart in
          touching_meet t n touch i j both.0,
    )
