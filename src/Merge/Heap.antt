-- ===== src/Merge/Heap.antt =====
use badger_rs.Common.{ℕ, Ordering}
use badger_rs.Common.{◌≡◌, refl, sym, inl, inr, arith}
use badger_rs.Common.{Bool, true, false, Option, none, some}
use badger_rs.Common.{List, [], ◌∷◌}
use badger_rs.Common.{leb, ◌==◌, if◌then◌else◌, Bool-cases}
use badger_rs.Common.{none-some, ==→eq}
use badger_rs.Common.{All}
use badger_rs.Common.{All-weaken}
use badger_rs.Common.{some_inj}
use badger_rs.Common.Keys.{
  Key, key_cmp, key_cmp_refl, key_cmp_eq, key_cmp_flip, key_cmp_flip_lt, key_cmp_trans,
}
use badger_rs.Common.Slices.{insert_sorted, All-insert_sorted}
-- The heap of the merge iterator: its order, and which iterator has which element in it.
use badger_rs.LevelHandler.Lookup.{IteratorItem}
use badger_rs.Merge.{IterRef, cmp, in_front}

-- The order of the keys in the direction of the iterator: the smaller comes first.
abbrev pub dir_cmp : Bool → Key → Key → Ordering
dir_cmp rev a b = if rev then key_cmp b a else key_cmp a b

pub dir_cmp_refl : (rev : Bool) (a : Key) → dir_cmp rev a a ≡ Ordering.eq
dir_cmp_refl true a = key_cmp_refl a
dir_cmp_refl false a = key_cmp_refl a

pub dir_cmp_eq : (rev : Bool) (a b : Key) → dir_cmp rev a b ≡ Ordering.eq → a ≡ b
dir_cmp_eq true a b h = sym (key_cmp_eq b a h)
dir_cmp_eq false a b h = key_cmp_eq a b h

pub dir_cmp_flip :
    (rev : Bool) (a b : Key) → dir_cmp rev a b ≡ Ordering.gt → dir_cmp rev b a ≡ Ordering.lt
dir_cmp_flip true a b h = key_cmp_flip b a h
dir_cmp_flip false a b h = key_cmp_flip a b h

pub dir_cmp_flip_lt :
    (rev : Bool) (a b : Key) → dir_cmp rev a b ≡ Ordering.lt → dir_cmp rev b a ≡ Ordering.gt
dir_cmp_flip_lt true a b h = key_cmp_flip_lt b a h
dir_cmp_flip_lt false a b h = key_cmp_flip_lt a b h

pub dir_cmp_trans :
    (rev : Bool) (a b c : Key)
    → dir_cmp rev a b ≡ Ordering.lt
    → dir_cmp rev b c ≡ Ordering.lt
    → dir_cmp rev a c ≡ Ordering.lt
dir_cmp_trans true a b c h k = key_cmp_trans c b a k h
dir_cmp_trans false a b c h k = key_cmp_trans a b c h k

pub in_front_lem :
    (a b : IterRef)
    → in_front a b ≡ elim (dir_cmp a.rev a.key.0 b.key.0) [
      | Ordering.lt ↦ true
      | Ordering.eq ↦ leb a.index b.index
      | Ordering.gt ↦ false
    ]
unfolding cmp
in_front_lem a b = ground (
  arith,
  key_cmp_flip_lt a.key.0 b.key.0,
  key_cmp_flip a.key.0 b.key.0,
  key_cmp_flip_lt b.key.0 a.key.0,
  key_cmp_flip b.key.0 a.key.0,
  key_cmp_eq b.key.0 a.key.0,
  key_cmp_eq a.key.0 b.key.0,
  key_cmp_refl a.key.0,
)

pub in_front_total : (a b : IterRef) → a.rev ≡ b.rev → in_front a b ≡ false → in_front b a ≡ true
in_front_total a b e h =
    rw (in_front_lem b a, ← e)
      (ground (
        arith,
        in_front_lem a b,
        dir_cmp_eq a.rev a.key.0 b.key.0,
        dir_cmp_refl a.rev a.key.0,
        dir_cmp_flip a.rev a.key.0 b.key.0,
      ))

pub in_front_trans :
    (a b c : IterRef)
    → a.rev ≡ b.rev
    → in_front a b ≡ true
    → in_front b c ≡ true
    → in_front a c ≡ true
in_front_trans a b c e h k = ground (
  arith,
  in_front_lem a b,
  in_front_lem b c,
  in_front_lem a c,
  dir_cmp_eq a.rev a.key.0 b.key.0,
  dir_cmp_eq a.rev b.key.0 c.key.0,
  dir_cmp_trans a.rev a.key.0 b.key.0 c.key.0,
)

-- The element of an iterator in the heap.
abbrev pub lookup : ℕ → List IterRef → Option IteratorItem
lookup i [] = none
lookup i (r ∷ h) = if r.index == i then some r.key else lookup i h

-- No iterator has two elements, and the order is that of the heap.
abbrev pub Distinct : List IterRef → Type 0
Distinct [] = Unit
Distinct (r ∷ h) = (lookup r.index h ≡ none) × Distinct h

abbrev pub Sorted : List IterRef → Type 0
Sorted [] = Unit
Sorted (r ∷ h) = All (λ s. in_front r s ≡ true) h × Sorted h

abbrev pub Directed : Bool → List IterRef → Type 0
Directed rev h = All (λ (r : IterRef). r.rev ≡ rev) h

pub record IsHeap (rev : Bool) (h : List IterRef) : Type 0 where
  pub distinct : Distinct h
  pub sorted : Sorted h
  pub directed : Directed rev h

abbrev pub push : IterRef → List IterRef → List IterRef
push r h = insert_sorted in_front r h

pub lookup-push :
    (i : ℕ) (r : IterRef) (h : List IterRef)
    → lookup r.index h ≡ none
    → lookup i (push r h) ≡ (if r.index == i then some r.key else lookup i h)
unfolding insert_sorted
lookup-push i r [] e = refl
lookup-push i r (s ∷ h) e = ground (arith, lookup-push i r h)

push-Distinct :
    (r : IterRef) (h : List IterRef) → lookup r.index h ≡ none → Distinct h → Distinct (push r h)
unfolding insert_sorted
push-Distinct r [] e d = (refl, tt)
push-Distinct r (s ∷ h) e d = elim (Bool-cases (in_front r s)) [
  | inl f ↦ rw f (e, d)
  | inr f ↦
      let apart : lookup r.index h ≡ none = ground (arith, e) in
      rw f (ground (arith, lookup-push s.index r h apart, d.0, e), push-Distinct r h apart d.1)
]

push-Sorted : (r : IterRef) (h : List IterRef) → Directed r.rev h → Sorted h → Sorted (push r h)
unfolding insert_sorted
push-Sorted r [] d s = (tt, tt)
push-Sorted r (s ∷ h) d o = elim (Bool-cases (in_front r s)) [
  | inl f ↦ rw f (
    (
      f,
      All-weaken (λ t. in_front s t ≡ true) (λ t. in_front r t ≡ true) h
          (λ t g. in_front_trans r s t (sym d.0) f g) o.0,
    ),
    o,
  )
  | inr f ↦ rw f (
    All-insert_sorted (λ t. in_front s t ≡ true) in_front r h (in_front_total r s (sym d.0) f) o.0,
    push-Sorted r h d.1 o.1,
  )
]

pub push-IsHeap :
    (r : IterRef) (h : List IterRef)
    → lookup r.index h ≡ none
    → IsHeap r.rev h
    → IsHeap r.rev (push r h)
push-IsHeap r h e k = record {
  distinct = push-Distinct r h e k.distinct;
  sorted = push-Sorted r h k.directed k.sorted;
  directed = All-insert_sorted (λ (s : IterRef). s.rev ≡ r.rev) in_front r h refl k.directed;
}

pub tail-IsHeap : {rev : Bool} (r : IterRef) (h : List IterRef) → IsHeap rev (r ∷ h) → IsHeap rev h
tail-IsHeap r h k = record { distinct = k.distinct.1; sorted = k.sorted.1; directed = k.directed.1 }

-- Without its first element, the heap has those of the other iterators.
pub lookup-tail :
    (i : ℕ) (r : IterRef) (h : List IterRef)
    → lookup r.index h ≡ none
    → lookup i h ≡ (if r.index == i then none else lookup i (r ∷ h))
lookup-tail i r h e = elim (Bool-cases (r.index == i)) [
  | inl q ↦ let same : r.index ≡ i = ==→eq _ _ q in rw q (rw same at e)
  | inr q ↦ rw q refl
]

pub All-lookup {ℓ} :
    (P : IterRef → Type ℓ) (h : List IterRef) (i : ℕ) (item : IteratorItem)
    → All P h
    → lookup i h ≡ some item
    → (r : IterRef) × ((r.index ≡ i) × (r.key ≡ item) × P r)
All-lookup P [] i item a e = absurd (none-some item e)
All-lookup P (r ∷ h) i item a e = elim (Bool-cases (r.index == i)) [
  | inl q ↦ (r, (==→eq _ _ q, some_inj (rw q at e), a.0))
  | inr q ↦ All-lookup P h i item a.1 (rw q at e)
]
