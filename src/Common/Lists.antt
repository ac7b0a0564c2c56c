-- ===== src/Common/Lists.antt =====
-- Lists over the native numbers: a slice, a `Vec` or a `HashSet` of the source is a list.
use Prim.Native.Nat.{ℕ, zero, suc, ◌+◌, ◌<◌, ◌≤◌}
use mathlib.Core.Path.{◌≡◌, refl, ap, sym, subst}
use mathlib.Core.Logic.{◌≢◌, ◌⊎◌, inl, inr}
use mathlib.Core.Bool.{Bool, false, ◌||◌}
use mathlib.Core.Option.{Option, none, some}
use mathlib.Core.List.{List, [], ◌∷◌, ◌++◌, map}
use native.Mathlib.Omega.{arith}
use badger_rs.Common.Tests.{if◌then◌else◌, ◌==◌, leb}

pub some_inj {ℓ} : {A : Type ℓ} {v w : A} → some v ≡ some w → v ≡ w
some_inj h = cc

none-ne {ℓ} : {A : Type ℓ} {v : A} → none ≡ some v → ⊥
none-ne h = cc

module _ {ℓ} {A : Type ℓ} where
  abbrev pub length : List A → ℕ
  length [] = 0
  length (x ∷ xs) = suc (length xs)

  abbrev pub get_elem? : List A → ℕ → Option A
  get_elem? [] i = none
  get_elem? (x ∷ xs) zero = some x
  get_elem? (x ∷ xs) (suc i) = get_elem? xs i

  pub List-cases : (xs : List A) → (xs ≡ []) ⊎ ((x : A) × (ys : List A) × (xs ≡ x ∷ ys))
  List-cases [] = inl refl
  List-cases (x ∷ xs) = inr (x, xs, refl)

  -- A write out of bounds changes nothing.
  abbrev pub set : List A → ℕ → A → List A
  set [] i v = []
  set (x ∷ xs) zero v = v ∷ xs
  set (x ∷ xs) (suc i) v = x ∷ set xs i v

  abbrev pub take : ℕ → List A → List A
  take zero xs = []
  take (suc n) [] = []
  take (suc n) (x ∷ xs) = x ∷ take n xs

  abbrev pub drop : ℕ → List A → List A
  drop zero xs = xs
  drop (suc n) [] = []
  drop (suc n) (x ∷ xs) = drop n xs

  abbrev pub replicate : ℕ → A → List A
  replicate zero x = []
  replicate (suc n) x = x ∷ replicate n x

  -- `Vec::retain`, and `filter` with a Boolean test.
  abbrev pub retain : (A → Bool) → List A → List A
  retain p [] = []
  retain p (x ∷ xs) = let rest = retain p xs in if p x then x ∷ rest else rest

  -- `Iterator::any`
  abbrev pub any : (A → Bool) → List A → Bool
  any p [] = false
  any p (x ∷ xs) = p x || any p xs

  abbrev pub All {κ} : (A → Type κ) → List A → Type κ
  All P [] = Unit
  All P (x ∷ xs) = P x × All P xs

  pub length-retain : (p : A → Bool) (xs : List A) → length (retain p xs) ≤ length xs
  length-retain p [] = omega arith
  length-retain p (x ∷ xs) = ground (arith, length-retain p xs)

  pub length-append : (xs ys : List A) → length (xs ++ ys) ≡ length xs + length ys
  length-append [] ys = omega arith
  length-append (x ∷ xs) ys = omega (arith, length-append xs ys)

  pub length-replicate : (n : ℕ) (x : A) → length (replicate n x) ≡ n
  length-replicate zero x = refl
  length-replicate (suc n) x = ap suc (length-replicate n x)

  pub length-set : (xs : List A) (i : ℕ) (v : A) → length (set xs i v) ≡ length xs
  length-set [] i v = refl
  length-set (x ∷ xs) zero v = refl
  length-set (x ∷ xs) (suc i) v = ap suc (length-set xs i v)

  pub take-append : (xs ys : List A) → take (length xs) (xs ++ ys) ≡ xs
  take-append [] ys = refl
  take-append (x ∷ xs) ys = ap (λ t. x ∷ t) (take-append xs ys)

  pub take_past :
      (xs : List A) (k : ℕ) (ys : List A) → take (length xs + k) (xs ++ ys) ≡ xs ++ take k ys
  take_past [] k ys = let n : 0 + k ≡ k = omega arith in rw n refl
  take_past (x ∷ xs) k ys =
      let n : suc (length xs) + k ≡ suc (length xs + k) = omega arith in
      rw n (ap (λ t. x ∷ t) (take_past xs k ys))

  pub drop-append : (xs ys : List A) → drop (length xs) (xs ++ ys) ≡ ys
  drop-append [] ys = refl
  drop-append (x ∷ xs) ys = drop-append xs ys

  pub take-drop : (n : ℕ) (xs : List A) → take n xs ++ drop n xs ≡ xs
  take-drop zero xs = refl
  take-drop (suc n) [] = refl
  take-drop (suc n) (x ∷ xs) = ap (λ t. x ∷ t) (take-drop n xs)

  pub length-take : (n : ℕ) (xs : List A) → n ≤ length xs → length (take n xs) ≡ n
  length-take zero xs h = refl
  length-take (suc n) [] h = absurd (omega arith)
  length-take (suc n) (x ∷ xs) h = ap suc (length-take n xs (omega arith))

  pub All-append {κ} : (P : A → Type κ) (xs ys : List A) → All P xs → All P ys → All P (xs ++ ys)
  All-append P [] ys h k = k
  All-append P (x ∷ xs) ys h k = (h.0, All-append P xs ys h.1 k)

  pub All-weaken {κ ν} :
      (P : A → Type κ) (Q : A → Type ν) (xs : List A) → ((a : A) → P a → Q a) → All P xs → All Q xs
  All-weaken P Q [] f h = tt
  All-weaken P Q (x ∷ xs) f h = (f x h.0, All-weaken P Q xs f h.1)

  pub drop-length : (n : ℕ) (xs ys : List A) → length xs ≡ n → drop n (xs ++ ys) ≡ ys
  drop-length zero [] ys h = refl
  drop-length zero (x ∷ xs) ys h = absurd (omega arith)
  drop-length (suc n) [] ys h = absurd (omega arith)
  drop-length (suc n) (x ∷ xs) ys h = drop-length n xs ys (omega arith)

  pub take-length : (n : ℕ) (xs ys : List A) → length xs ≡ n → take n (xs ++ ys) ≡ xs
  take-length zero [] ys h = refl
  take-length zero (x ∷ xs) ys h = absurd (omega arith)
  take-length (suc n) [] ys h = absurd (omega arith)
  take-length (suc n) (x ∷ xs) ys h = ap (λ t. x ∷ t) (take-length n xs ys (omega arith))

  -- `&xs[off..off + n]`; `none` is the panic of a range that ends past the slice.
  abbrev pub slice : ℕ → ℕ → List A → Option (List A)
  slice off n xs = if leb (off + n) (length xs) then some (take n (drop off xs)) else none

  pub slice-append :
      (off n : ℕ) (pre xs rest : List A)
      → length pre ≡ off
      → length xs ≡ n
      → slice off n (pre ++ (xs ++ rest)) ≡ some xs
  slice-append off n pre xs rest hp hx =
      rw (drop-length off pre (xs ++ rest) hp, take-length n xs rest hx)
        (ground (arith, length-append pre (xs ++ rest), length-append xs rest))

  pub slice-at :
      (off n : ℕ) (whole pre xs rest : List A)
      → whole ≡ pre ++ (xs ++ rest)
      → off ≡ length pre
      → n ≡ length xs
      → slice off n whole ≡ some xs
  slice-at off n whole pre xs rest e hp hx = rw e (slice-append off n pre xs rest (sym hp) (sym hx))

  pub get_elem?-past : (xs : List A) (i : ℕ) → length xs ≤ i → get_elem? xs i ≡ none
  get_elem?-past [] i h = refl
  get_elem?-past (x ∷ xs) zero h = absurd (omega arith)
  get_elem?-past (x ∷ xs) (suc i) h = get_elem?-past xs i (omega arith)

  pub get_elem?-some : (xs : List A) (i : ℕ) → i < length xs → (v : A) × (get_elem? xs i ≡ some v)
  get_elem?-some [] i h = absurd (omega arith)
  get_elem?-some (x ∷ xs) zero h = (x, refl)
  get_elem?-some (x ∷ xs) (suc i) h = get_elem?-some xs i (omega arith)

  pub get-set_self :
      (xs : List A) (i : ℕ) (v : A) → i < length xs → get_elem? (set xs i v) i ≡ some v
  get-set_self [] i v h = absurd (omega arith)
  get-set_self (x ∷ xs) zero v h = refl
  get-set_self (x ∷ xs) (suc i) v h = get-set_self xs i v (omega arith)

  pub get-set_ne :
      (xs : List A) (i j : ℕ) (v : A) → i ≢ j → get_elem? (set xs i v) j ≡ get_elem? xs j
  get-set_ne [] i j v h = refl
  get-set_ne (x ∷ xs) zero zero v h = absurd (h refl)
  get-set_ne (x ∷ xs) zero (suc j) v h = refl
  get-set_ne (x ∷ xs) (suc i) zero v h = refl
  get-set_ne (x ∷ xs) (suc i) (suc j) v h = get-set_ne xs i j v (omega arith)

  pub set-set : (xs : List A) (i : ℕ) (v w : A) → set (set xs i v) i w ≡ set xs i w
  set-set [] i v w = refl
  set-set (x ∷ xs) zero v w = refl
  set-set (x ∷ xs) (suc i) v w = ap (λ t. x ∷ t) (set-set xs i v w)

  pub set_comm :
      (xs : List A) (i j : ℕ) (v w : A) → i ≢ j → set (set xs i v) j w ≡ set (set xs j w) i v
  set_comm [] i j v w h = refl
  set_comm (x ∷ xs) zero zero v w h = absurd (h refl)
  set_comm (x ∷ xs) zero (suc j) v w h = refl
  set_comm (x ∷ xs) (suc i) zero v w h = refl
  set_comm (x ∷ xs) (suc i) (suc j) v w h = ap (λ t. x ∷ t) (set_comm xs i j v w (omega arith))

  pub set_self : (xs : List A) (i : ℕ) (v : A) → get_elem? xs i ≡ some v → set xs i v ≡ xs
  set_self [] i v h = refl
  set_self (x ∷ xs) zero v h = ap (λ t. t ∷ xs) (sym (some_inj h))
  set_self (x ∷ xs) (suc i) v h = ap (λ t. x ∷ t) (set_self xs i v h)

  pub get_elem?-lt : (xs : List A) (i : ℕ) (v : A) → get_elem? xs i ≡ some v → i < length xs
  get_elem?-lt [] i v h = cc
  get_elem?-lt (x ∷ xs) zero v h = omega arith
  get_elem?-lt (x ∷ xs) (suc i) v h = omega (arith, get_elem?-lt xs i v h)

  pub All-get {κ} :
      (P : A → Type κ) (xs : List A) (i : ℕ) (v : A) → All P xs → get_elem? xs i ≡ some v → P v
  All-get P [] i v a h = absurd (none-ne h)
  All-get P (x ∷ xs) zero v a h = subst P (some_inj h) a.0
  All-get P (x ∷ xs) (suc i) v a h = All-get P xs i v a.1 h

  pub All-set {κ} :
      (P : A → Type κ) (xs : List A) (i : ℕ) (v : A) → All P xs → P v → All P (set xs i v)
  All-set P [] i v a p = tt
  All-set P (x ∷ xs) zero v a p = (p, a.1)
  All-set P (x ∷ xs) (suc i) v a p = (a.0, All-set P xs i v a.1 p)

pub get_elem?-map {ℓ κ} :
    {A : Type ℓ} {B : Type κ} (f : A → B) (xs : List A) (i : ℕ)
    → get_elem? (map f xs) i ≡ elim (get_elem? xs i) [ none ↦ none | some a ↦ some (f a) ]
get_elem?-map f [] i = refl
get_elem?-map f (x ∷ xs) zero = refl
get_elem?-map f (x ∷ xs) (suc i) = get_elem?-map f xs i

pub length-map {ℓ κ} :
    {A : Type ℓ} {B : Type κ} (f : A → B) (xs : List A) → length (map f xs) ≡ length xs
length-map f [] = refl
length-map f (x ∷ xs) = ap suc (length-map f xs)

-- Lists with the same elements at the same places are equal.
pub get_elem?_ext {ℓ} :
    {A : Type ℓ} (xs ys : List A) → ((i : ℕ) → get_elem? xs i ≡ get_elem? ys i) → xs ≡ ys
get_elem?_ext [] [] h = refl
get_elem?_ext [] (y ∷ ys) h = absurd (none-ne (h 0))
get_elem?_ext (x ∷ xs) [] h = absurd (none-ne (sym (h 0)))
get_elem?_ext (x ∷ xs) (y ∷ ys) h =
    let e : x ≡ y = some_inj (h 0) in let f : xs ≡ ys = get_elem?_ext xs ys (λ i. h (suc i)) in cc

-- `contains` on a list or a set of ids.
abbrev pub contains : ℕ → List ℕ → Bool
contains a [] = false
contains a (x ∷ xs) = a == x || contains a xs
