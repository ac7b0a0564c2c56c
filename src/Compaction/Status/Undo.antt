-- ===== src/Compaction/Status/Undo.antt =====
-- The registered ranges stay apart, and `delete` undoes `compare_and_add`.
use badger_rs.Common.{ℕ, ◌+◌, ◌^◌, ◌<◌}
use badger_rs.Common.{◌≡◌, refl, ap, ◌∙◌, inl, inr, arith}
use badger_rs.Common.{Bool, true, false, not, some}
use badger_rs.Common.{List, [], ◌∷◌, ◌++◌}
use badger_rs.Common.{ltb, Bool-cases, Option-cases}
use badger_rs.Common.{lt→ltb}
use badger_rs.Common.{length, get_elem?, set, retain, any, All}
use badger_rs.Common.{length-append, length-set, All-append}
use badger_rs.Common.{get-set_self, get-set_ne, set-set, set_comm, set_self, All-get, All-set}
use badger_rs.Compaction.KeyRange.{KeyRange, equals, overlaps_with}
use badger_rs.Compaction.KeyRange.Overlap.{IsProper, equals-left_only, equals-overlaps}
use badger_rs.Compaction.CompactDef.{CompactDef}
use badger_rs.Compaction.Status.{
  LevelCompactStatus, CompactStatus, level_overlaps_with, remove, add, incr_del_size, decr_del_size,
  may_run, compare_and_add, delete,
}

-- The ranges of one level share no key, by the code's test.
abbrev pub Separate : List KeyRange → Type 0
Separate [] = Unit
Separate (r ∷ rs) = All (λ s. overlaps_with r s ≡ false) rs × Separate rs

abbrev pub IsSeparate : CompactStatus → Type 0
IsSeparate levels = All (λ (s : LevelCompactStatus). Separate s.ranges) levels

any-false :
    (rs : List KeyRange) (dst : KeyRange)
    → any (λ kr. overlaps_with kr dst) rs ≡ false
    → All (λ kr. overlaps_with kr dst ≡ false) rs
any-false [] dst h = tt
any-false (r ∷ rs) dst h = (ground arith, any-false rs dst (ground arith))

Separate-append :
    (rs : List KeyRange) (dst : KeyRange)
    → Separate rs
    → All (λ kr. overlaps_with kr dst ≡ false) rs
    → Separate (rs ++ (dst ∷ []))
Separate-append [] dst s a = (tt, tt)
Separate-append (r ∷ rs) dst s a = (
  All-append (λ t. overlaps_with r t ≡ false) rs (dst ∷ []) s.0 (a.0, tt),
  Separate-append rs dst s.1 a.1,
)

All-retain :
    (P : KeyRange → Type 0) (keep : KeyRange → Bool) (rs : List KeyRange)
    → All P rs
    → All P (retain keep rs)
All-retain P keep [] a = tt
All-retain P keep (r ∷ rs) a = elim (Bool-cases (keep r)) [
  | inl e ↦ rw e (a.0, All-retain P keep rs a.1)
  | inr e ↦ rw e (All-retain P keep rs a.1)
]

Separate-retain :
    (keep : KeyRange → Bool) (rs : List KeyRange) → Separate rs → Separate (retain keep rs)
Separate-retain keep [] s = tt
Separate-retain keep (r ∷ rs) s = elim (Bool-cases (keep r)) [
  | inl e ↦
      rw e (All-retain (λ t. overlaps_with r t ≡ false) keep rs s.0, Separate-retain keep rs s.1)
  | inr e ↦ rw e (Separate-retain keep rs s.1)
]

-- A proper range that does not meet another is not equal to it.
not_equal :
    (r dst : KeyRange)
    → IsProper r
    → IsProper dst
    → overlaps_with r dst ≡ false
    → equals r dst ≡ false
not_equal r dst i p h = elim (Bool-cases (equals r dst)) [
  | inr e ↦ e
  | inl e ↦ absurd (ground (arith, equals-overlaps r dst i p e))
]

retain-All :
    (rs : List KeyRange) (dst : KeyRange)
    → All IsProper rs
    → IsProper dst
    → All (λ kr. overlaps_with kr dst ≡ false) rs
    → retain (λ r. not (equals r dst)) (rs ++ (dst ∷ [])) ≡ rs
retain-All [] dst i p a = rw ((equals-left_only dst dst).1 refl) refl
retain-All (r ∷ rs) dst i p a =
    rw (not_equal r dst i.0 p a.0) (ap (λ t. r ∷ t) (retain-All rs dst i.1 p a.1))

remove-add :
    (s : LevelCompactStatus) (dst : KeyRange)
    → All IsProper s.ranges
    → IsProper dst
    → level_overlaps_with s dst ≡ false
    → remove (add s dst) dst ≡ (true, s)
unfolding remove add level_overlaps_with
remove-add s dst i p h =
    let e = retain-All s.ranges dst i p (any-false s.ranges dst h) in
    rw e (ground (arith, length-append s.ranges (dst ∷ [])))

-- What a compaction that was admitted did to the two levels.
record Admitted (levels levels' : CompactStatus) (cd : CompactDef) : Type 0 where
  this : LevelCompactStatus
  next : LevelCompactStatus
  in_range : cd.this_level.level + 1 < length levels
  at_this : get_elem? levels cd.this_level.level ≡ some this
  at_next : get_elem? levels (cd.this_level.level + 1) ≡ some next
  runs : may_run cd this next ≡ true
  result :
      levels'
      ≡ set
          (set levels cd.this_level.level (incr_del_size (add this cd.this_range) cd.this_size))
          (cd.this_level.level + 1)
          (add next cd.next_range)

admitted :
    (levels levels' : CompactStatus) (cd : CompactDef)
    → compare_and_add levels cd ≡ some (true, levels')
    → Admitted levels levels' cd
unfolding compare_and_add
admitted levels levels' cd e =
    let l = cd.this_level.level in
    elim (Option-cases (get_elem? levels l)) [
      | inl n ↦ absurd (ground (arith, n))
      | inr (this, p) ↦ elim (Option-cases (get_elem? levels (l + 1))) [
        | inl n ↦ absurd (ground (arith, n, p))
        | inr (next, q) ↦ record {
          this = this;
          next = next;
          in_range = ground (arith, p, q);
          at_this = p;
          at_next = q;
          runs = ground (arith, p, q);
          result = ground (arith, p, q);
        }
      ]
    ]

-- A compaction that was refused changes nothing.
pub refused :
    (levels levels' : CompactStatus) (cd : CompactDef)
    → compare_and_add levels cd ≡ some (false, levels')
    → levels' ≡ levels
unfolding compare_and_add
refused levels levels' cd e =
    let l = cd.this_level.level in
    elim (Option-cases (get_elem? levels l)) [
      | inl n ↦ absurd (ground (arith, n))
      | inr (this, p) ↦ elim (Option-cases (get_elem? levels (l + 1))) [
        | inl n ↦ absurd (ground (arith, n, p))
        | inr (next, q) ↦ ground (arith, p, q)
      ]
    ]

may_run_free :
    (cd : CompactDef) (this next : LevelCompactStatus)
    → may_run cd this next ≡ true
    → (level_overlaps_with this cd.this_range ≡ false)
      × (level_overlaps_with next cd.next_range ≡ false)
unfolding may_run
may_run_free cd this next h = ground arith

add-Separate :
    (s : LevelCompactStatus) (dst : KeyRange)
    → level_overlaps_with s dst ≡ false
    → Separate s.ranges
    → Separate (add s dst).ranges
unfolding add level_overlaps_with
add-Separate s dst h k = Separate-append s.ranges dst k (any-false s.ranges dst h)

-- Whatever `compare_and_add` answers, the ranges registered on each level stay apart from each
-- other.
pub compare_and_add-IsSeparate :
    (levels levels' : CompactStatus) (cd : CompactDef) (done : Bool)
    → IsSeparate levels
    → compare_and_add levels cd ≡ some (done, levels')
    → IsSeparate levels'
compare_and_add-IsSeparate levels levels' cd true sep e =
    let a = admitted levels levels' cd e in
    let free = may_run_free cd a.this a.next a.runs in
    let P = λ (s : LevelCompactStatus). Separate s.ranges in
    let this' : Separate (add a.this cd.this_range).ranges =
      add-Separate a.this cd.this_range free.0 (All-get P levels _ a.this sep a.at_this) in
    let level = cd.this_level.level in
    let sized : Separate (incr_del_size (add a.this cd.this_range) cd.this_size).ranges =
      unfold incr_del_size in this' in
    rw a.result (
      All-set P _ (level + 1) (add a.next cd.next_range)
        (All-set P levels level (incr_del_size (add a.this cd.this_range) cd.this_size) sep sized)
        (add-Separate a.next cd.next_range free.1 (All-get P levels _ a.next sep a.at_next)))
compare_and_add-IsSeparate levels levels' cd false sep e = rw (refused levels levels' cd e) sep

-- The size that was added is taken off again.
undo_size :
    (s : LevelCompactStatus) (n : ℕ)
    → s.del_size < 2 ^ 64
    → n < 2 ^ 64
    → decr_del_size (incr_del_size s n) n ≡ s
unfolding decr_del_size incr_del_size
undo_size s n h k = ground arith

-- Two neighbouring entries written, and written back.
set_back {ℓ} :
    {A : Type ℓ} (xs : List A) (i : ℕ) (a b v w : A)
    → get_elem? xs i ≡ some v
    → get_elem? xs (i + 1) ≡ some w
    → set (set (set (set xs i a) (i + 1) b) i v) (i + 1) w ≡ xs
set_back xs i a b v w p q =
    let n = i + 1 in
    rw (set_comm (set xs i a) n i b v (omega arith)) (
      rw (set-set xs i a v)
        (rw (set-set (set xs i v) n b w) (rw (set_self xs i v p) (set_self xs n w q))))

-- Once a compaction was admitted, deleting it gives the status back as it was before; its ranges
-- and the registered ones are proper, and the sizes are in the range of their type.
pub delete-compare_and_add :
    (levels levels' : CompactStatus) (cd : CompactDef)
    → IsProper cd.this_range
    → IsProper cd.next_range
    → All (λ (s : LevelCompactStatus). All IsProper s.ranges) levels
    → All (λ (s : LevelCompactStatus). s.del_size < 2 ^ 64) levels
    → cd.this_size < 2 ^ 64
    → compare_and_add levels cd ≡ some (true, levels')
    → delete levels' cd ≡ some levels
unfolding delete
delete-compare_and_add levels levels' cd p q i d f e =
    let a = admitted levels levels' cd e in
    let l = cd.this_level.level in
    let free = may_run_free cd a.this a.next a.runs in
    let A = incr_del_size (add a.this cd.this_range) cd.this_size in
    let B = add a.next cd.next_range in
    let inside : l + 1 < length levels = a.in_range in
    let long : length (set levels l A) ≡ length levels = length-set levels l A in
    let longer : ltb (l + 1) (length (set (set levels l A) (l + 1) B)) ≡ true =
      rw (length-set (set levels l A) (l + 1) B, long) (lt→ltb _ _ inside) in
    let at_this : get_elem? (set (set levels l A) (l + 1) B) l ≡ some A =
      get-set_ne (set levels l A) (l + 1) l B (omega arith)
      ∙ get-set_self levels l A (omega arith) in
    let at_next : get_elem? (set (set levels l A) (l + 1) B) (l + 1) ≡ some B =
      get-set_self (set levels l A) (l + 1) B (omega (arith, long)) in
    let sized : (add a.this cd.this_range).del_size < 2 ^ 64 =
      unfold add in
      All-get (λ (s : LevelCompactStatus). s.del_size < 2 ^ 64) levels l a.this d a.at_this in
    let proper : (s : LevelCompactStatus) (k : ℕ)
        → get_elem? levels k ≡ some s
        → All IsProper s.ranges =
      λ s k at. All-get (λ (t : LevelCompactStatus). All IsProper t.ranges) levels k s i at in
    let back = undo_size (add a.this cd.this_range) cd.this_size sized f in
    rw (a.result) (
      rw longer (
        rw at_this (
          rw at_next (
            rw
              (
                back,
                remove-add a.this cd.this_range (proper a.this _ a.at_this) p free.0,
                remove-add a.next cd.next_range (proper a.next _ a.at_next) q free.1,
              )
              (ap some (set_back levels l A B a.this a.next a.at_this a.at_next))))))
