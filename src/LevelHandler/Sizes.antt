-- ===== src/LevelHandler/Sizes.antt =====
-- The size counter and the reference trace of a level.
use badger_rs.Common.{ℕ, ◌+◌, ◌^◌, ◌<◌}
use badger_rs.Common.{◌≡◌, refl, sym, ap, ◌∙◌, inl, inr, arith}
use badger_rs.Common.{Bool, not, some}
use badger_rs.Common.{List, [], ◌∷◌, ◌++◌, append-nil, append_assoc}
use badger_rs.Common.{Bool-cases}
use badger_rs.Common.{u64}
use badger_rs.Common.{retain, contains, All}
use badger_rs.Common.Slices.{insert_sorted, sort_by}
use badger_rs.TableRef.{Table, RefEvent, incr_ref, decr_ref}
use badger_rs.LevelHandler.{
  LevelHandler, leave, join, sweep, delete_tables, sum_sizes, join_all, replace_tables, replaced,
  last_of, by_smallest, init_tables, by_id, try_add_level0_table,
}

-- The counter is the sum of the sizes, as a `u64`.
abbrev pub SizesAgree : LevelHandler → Type 0
SizesAgree h = h.total_size ≡ u64 (sum_sizes h.tables)

abbrev pub SizeFits : Table → Type 0
SizeFits t = t.size < 2 ^ 64

pub sum_sizes-append : (ts us : List Table) → sum_sizes (ts ++ us) ≡ sum_sizes ts + sum_sizes us
sum_sizes-append [] us = omega arith
sum_sizes-append (t ∷ ts) us = omega (arith, sum_sizes-append ts us)

sum_sizes-insert_sorted :
    (before : Table → Table → Bool) (t : Table) (ts : List Table)
    → sum_sizes (insert_sorted before t ts) ≡ t.size + sum_sizes ts
unfolding insert_sorted
sum_sizes-insert_sorted before t [] = refl
sum_sizes-insert_sorted before t (u ∷ us) = ground (arith, sum_sizes-insert_sorted before t us)

pub sum_sizes-sort_by :
    (before : Table → Table → Bool) (ts : List Table) → sum_sizes (sort_by before ts) ≡ sum_sizes ts
unfolding sort_by
sum_sizes-sort_by before [] = refl
sum_sizes-sort_by before (t ∷ ts) =
    omega (arith, sum_sizes-insert_sorted before t (sort_by before ts), sum_sizes-sort_by before ts)

-- What a sweep keeps.
pub sweep-kept :
    (gone : Table → Bool) (ts : List Table) (h : LevelHandler)
    → (sweep gone ts h).0 ≡ retain (λ t. not (gone t)) ts
unfolding sweep
sweep-kept gone [] h = refl
sweep-kept gone (t ∷ ts) h = ground (arith, sweep-kept gone ts (leave h t), sweep-kept gone ts h)

abbrev pub decrs : List Table → List RefEvent
decrs [] = []
decrs (t ∷ ts) = decr_ref t.id ∷ decrs ts

abbrev pub incrs : List Table → List RefEvent
incrs [] = []
incrs (t ∷ ts) = incr_ref t.id ∷ incrs ts

pub sweep-refs :
    (gone : Table → Bool) (ts : List Table) (h : LevelHandler)
    → (sweep gone ts h).1.refs ≡ h.refs ++ decrs (retain gone ts)
unfolding sweep leave
sweep-refs gone [] h = sym (append-nil h.refs)
sweep-refs gone (t ∷ ts) h = elim (Bool-cases (gone t)) [
  | inl g ↦ rw g (sweep-refs gone ts (leave h t) ∙ append_assoc h.refs _ _)
  | inr k ↦ rw k (sweep-refs gone ts h)
]

pub sweep-total :
    (gone : Table → Bool) (ts : List Table) (h : LevelHandler) (other : ℕ)
    → All SizeFits ts
    → h.total_size ≡ u64 (sum_sizes ts + other)
    → (sweep gone ts h).1.total_size ≡ u64 (sum_sizes (retain (λ t. not (gone t)) ts) + other)
unfolding sweep
sweep-total gone [] h other f e = e
sweep-total gone (t ∷ ts) h other f e = elim (Bool-cases (gone t)) [
  | inl g ↦ rw g (sweep-total gone ts (leave h t) other f.1 (unfold leave in omega (arith, f.0)))
  | inr k ↦
      let regroup : u64 (sum_sizes ts + (t.size + other)) ≡ u64 (t.size + sum_sizes ts + other) =
        omega arith in
      rw k (sweep-total gone ts h (t.size + other) f.1 (omega arith) ∙ omega arith)
]

pub join_all-total :
    (ts : List Table) (h : LevelHandler) (other : ℕ)
    → h.total_size ≡ u64 other
    → (join_all h ts).total_size ≡ u64 (other + sum_sizes ts)
unfolding join_all join
join_all-total [] h other e = e ∙ omega arith
join_all-total (t ∷ ts) h other e =
    join_all-total ts (join h t) (other + t.size) (omega arith) ∙ omega arith

pub join_all-refs : (ts : List Table) (h : LevelHandler) → (join_all h ts).refs ≡ h.refs ++ incrs ts
unfolding join_all join
join_all-refs [] h = sym (append-nil h.refs)
join_all-refs (t ∷ ts) h = join_all-refs ts (join h t) ∙ append_assoc h.refs _ _

-- Deleting tables keeps the size counter of a level at the sum of the sizes of its tables, as a
-- `u64`.
pub delete_tables-SizesAgree :
    (h : LevelHandler) (ids : List ℕ)
    → All SizeFits h.tables
    → SizesAgree h
    → SizesAgree (delete_tables h ids)
unfolding delete_tables
delete_tables-SizesAgree h ids f a =
    let gone = λ (t : Table). contains t.id ids in
    sweep-total gone h.tables h 0 f (omega arith) ∙ rw (sweep-kept gone h.tables h) (omega arith)

-- Replacing tables keeps the size counter of a level at the sum of the sizes of its tables, as a
-- `u64`.
pub replace_tables-SizesAgree :
    (h : LevelHandler) (new : List Table)
    → All SizeFits h.tables
    → SizesAgree h
    → SizesAgree (replace_tables h new)
unfolding replace_tables
replace_tables-SizesAgree h [] f a = a
replace_tables-SizesAgree h (n ∷ ns) f a =
    let gone = replaced n.smallest (last_of n ns).biggest in
    let joined = join_all-total (n ∷ ns) h (sum_sizes h.tables) a in
    sweep-total gone h.tables (join_all h (n ∷ ns)) (sum_sizes (n ∷ ns)) f joined
    ∙ rw (sum_sizes-sort_by, sweep-kept gone h.tables (join_all h (n ∷ ns)), sum_sizes-append) refl

-- Replacing tables takes one reference to each new table, and then drops one reference to each
-- table that leaves, and does nothing else to references.
pub replace_tables-refs :
    (h : LevelHandler) (n : Table) (ns : List Table)
    → (replace_tables h (n ∷ ns)).refs
      ≡ (h.refs ++ incrs (n ∷ ns))
        ++ decrs (retain (replaced n.smallest (last_of n ns).biggest) h.tables)
unfolding replace_tables
replace_tables-refs h n ns =
    sweep-refs (replaced n.smallest (last_of n ns).biggest) h.tables (join_all h (n ∷ ns))
    ∙ ap (λ r. r ++ decrs (retain (replaced n.smallest (last_of n ns).biggest) h.tables))
        (join_all-refs (n ∷ ns) h)

-- Setting the tables up, and adding a table to level 0, answers a level whose counter is right.
pub init_tables-SizesAgree : (h : LevelHandler) (ts : List Table) → SizesAgree (init_tables h ts)
unfolding init_tables
init_tables-SizesAgree h ts =
    ground (arith, sum_sizes-sort_by by_id ts, sum_sizes-sort_by by_smallest ts)

-- Adding a table to level 0, or refusing it, keeps the size counter of the level at the sum of the
-- sizes of its tables, as a `u64`.
pub try_add-SizesAgree :
    (h h' : LevelHandler) (t : Table) (done : Bool)
    → SizesAgree h
    → try_add_level0_table h t ≡ some (done, h')
    → SizesAgree h'
unfolding try_add_level0_table join
try_add-SizesAgree h h' t done a e = ground (arith, sum_sizes-append h.tables (t ∷ []))
