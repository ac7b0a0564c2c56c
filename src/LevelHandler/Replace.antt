-- ===== src/LevelHandler/Replace.antt =====
-- `replace_tables` keeps a level in order, if no old table ends where the new ones begin.
use badger_rs.LevelHandler.{join_all}
use badger_rs.LevelHandler.Sizes.{sweep-kept}
use badger_rs.LevelHandler.{LevelHandler}
use badger_rs.LevelHandler.{replace_tables}
use badger_rs.LevelHandler.{replaced}
use badger_rs.Common.{◌≡◌, inl, inr, arith}
use badger_rs.Common.{Bool, true, false, not}
use badger_rs.Common.{List, [], ◌∷◌, ◌++◌}
use badger_rs.Common.{Bool-cases}
use badger_rs.Common.{retain, All}
use badger_rs.Common.{All-append}
use badger_rs.Common.Keys.{
  Key, key_le, key_cmp_eq, key_le_refl, key_le_trans, key_lt-not_le, key_le_total, key_lt_le,
  key_lt_le_trans, key_le_lt_trans,
}
use badger_rs.Common.Slices.{insert_sorted, sort_by, All-insert_sorted, All-sort_by}
use badger_rs.TableRef.{Table}
use badger_rs.LevelHandler.{last_of, by_smallest}
use badger_rs.LevelHandler.Order.{IsTable, Before, Ordered, Apart, All-Before-trans}

insert-Ordered :
    (t : Table) (ts : List Table)
    → IsTable t
    → All (Apart t) ts
    → Ordered ts
    → Ordered (insert_sorted by_smallest t ts)
unfolding insert_sorted
insert-Ordered t [] i a o = (i, tt, tt)
insert-Ordered t (u ∷ us) i a o = elim (Bool-cases (by_smallest t u)) [
  | inl e ↦
      let first : Before t u = ground (
        arith,
        a.0,
        key_lt-not_le u.biggest t.smallest,
        key_le_trans t.smallest u.smallest u.biggest e o.0,
      ) in
      rw e (i, (first, All-Before-trans t u us first o.0 o.1), o)
  | inr e ↦
      let later : Before u t = ground (
        arith,
        a.0,
        key_lt-not_le t.biggest u.smallest,
        key_le_trans u.smallest t.smallest t.biggest (key_le_total t.smallest u.smallest e) i,
      ) in
      rw e (
        o.0,
        All-insert_sorted (Before u) by_smallest t us later o.1,
        insert-Ordered t us i a.1 o.2,
      )
]

abbrev pub AllApart : List Table → Type 0
AllApart [] = Unit
AllApart (t ∷ ts) = IsTable t × All (Apart t) ts × AllApart ts

sort-Ordered : (ts : List Table) → AllApart ts → Ordered (sort_by by_smallest ts)
unfolding sort_by
sort-Ordered [] a = tt
sort-Ordered (t ∷ ts) a =
    insert-Ordered t (sort_by by_smallest ts) a.0 (All-sort_by (Apart t) by_smallest ts a.1)
      (sort-Ordered ts a.2)

pub Ordered-AllApart : (ts : List Table) → Ordered ts → AllApart ts
Ordered-AllApart [] o = tt
Ordered-AllApart (t ∷ ts) o = (o.0, go ts o.1, Ordered-AllApart ts o.2)
  where
    go : (us : List Table) → All (Before t) us → All (Apart t) us
    go [] b = tt
    go (u ∷ us) b = (ground (arith, b.0), go us b.1)

AllApart-append :
    (ts us : List Table)
    → AllApart ts
    → AllApart us
    → All (λ t. All (Apart t) us) ts
    → AllApart (ts ++ us)
AllApart-append [] us a b c = b
AllApart-append (t ∷ ts) us a b c =
    (a.0, All-append (Apart t) ts us a.1 c.0, AllApart-append ts us a.2 b c.1)

AllApart-retain : (keep : Table → Bool) (ts : List Table) → AllApart ts → AllApart (retain keep ts)
AllApart-retain keep [] a = tt
AllApart-retain keep (t ∷ ts) a = elim (Bool-cases (keep t)) [
  | inl e ↦ rw e (a.0, go ts a.1, AllApart-retain keep ts a.2)
  | inr e ↦ rw e (AllApart-retain keep ts a.2)
]
  where
    go : (us : List Table) → All (Apart t) us → All (Apart t) (retain keep us)
    go [] b = tt
    go (u ∷ us) b = elim (Bool-cases (keep u)) [
      | inl e ↦ rw e (b.0, go us b.1)
      | inr e ↦ rw e (go us b.1)
    ]

-- The new tables lie between the two ends.
abbrev Between : Key → Key → Table → Type 0
Between l r t = (key_le l t.smallest ≡ true) × (key_le t.biggest r ≡ true)

last_reach :
    (n : Table) (ns : List Table)
    → Ordered (n ∷ ns)
    → key_le n.biggest (last_of n ns).biggest ≡ true
last_reach n [] o = key_le_refl n.biggest
last_reach n (u ∷ us) o =
    key_le_trans n.biggest u.biggest _
      (key_le_trans n.biggest u.smallest u.biggest (key_lt_le _ _ o.1.0) o.2.0)
      (last_reach u us o.2)

All-Between :
    (l : Key) (n : Table) (ns : List Table)
    → key_le l n.smallest ≡ true
    → Ordered (n ∷ ns)
    → All (Between l (last_of n ns).biggest) (n ∷ ns)
All-Between l n [] h o = ((h, key_le_refl n.biggest), tt)
All-Between l n (u ∷ us) h o = (
  (h, last_reach n (u ∷ us) o),
  All-Between l u us
      (key_le_trans l n.smallest u.smallest h
        (key_le_trans n.smallest n.biggest u.smallest o.0 (key_lt_le _ _ o.1.0)))
      o.2,
)

-- A table of the level that ends exactly where the new tables begin.
abbrev pub Touches : Key → Table → Type 0
Touches left t = t.biggest ≡ left

Apart-kept :
    (l r : Key) (t u : Table) → replaced l r t ≡ false → ¬ (Touches l t) → Between l r u → Apart t u
unfolding replaced
Apart-kept l r t u k d b = ground (
  arith,
  b.0,
  b.1,
  key_lt_le_trans t.biggest l u.smallest,
  key_le_lt_trans u.biggest r t.smallest,
  key_cmp_eq t.biggest l,
)

All-Apart_kept :
    (l r : Key) (t : Table) (us : List Table)
    → replaced l r t ≡ false
    → ¬ (Touches l t)
    → All (Between l r) us
    → All (Apart t) us
All-Apart_kept l r t [] k d b = tt
All-Apart_kept l r t (u ∷ us) k d b = (Apart-kept l r t u k d b.0, All-Apart_kept l r t us k d b.1)

kept-Apart :
    (l r : Key) (ts us : List Table)
    → All (λ t. ¬ (Touches l t)) ts
    → All (Between l r) us
    → All (λ t. All (Apart t) us) (retain (λ t. not (replaced l r t)) ts)
kept-Apart l r [] us d b = tt
kept-Apart l r (t ∷ ts) us d b = elim (Bool-cases (replaced l r t)) [
  | inl e ↦ rw e (kept-Apart l r ts us d.1 b)
  | inr e ↦ rw e (All-Apart_kept l r t us e d.0 b, kept-Apart l r ts us d.1 b)
]

-- Replacing tables on a level in order by new tables in order, the first of which no old table
-- touches, leaves a level in order.
pub replace_tables-Ordered :
    (h : LevelHandler) (n : Table) (ns : List Table)
    → Ordered h.tables
    → Ordered (n ∷ ns)
    → All (λ t. ¬ (Touches n.smallest t)) h.tables
    → Ordered (replace_tables h (n ∷ ns)).tables
unfolding replace_tables
replace_tables-Ordered h n ns old new d =
    let r = (last_of n ns).biggest in
    rw (sweep-kept (replaced n.smallest r) h.tables (join_all h (n ∷ ns))) (
      sort-Ordered _ (
        AllApart-append _ (n ∷ ns)
          (AllApart-retain (λ t. not (replaced n.smallest r t)) h.tables
            (Ordered-AllApart h.tables old))
          (Ordered-AllApart (n ∷ ns) new)
          (kept-Apart n.smallest r h.tables (n ∷ ns) d
            (All-Between n.smallest n ns (key_le_refl n.smallest) new))))
