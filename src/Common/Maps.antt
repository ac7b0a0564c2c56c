-- ===== src/Common/Maps.antt =====
-- `HashMap<u64, V>` as an association list and `HashSet<u64>` as a list of numbers. The order in which
-- the source's tables iterate is not specified; here it is the order of insertion.
use badger_rs.Common.{ℕ, ◌+◌}
use badger_rs.Common.{◌≡◌, refl, inl, inr, arith}
use badger_rs.Common.{Bool, true, false, not, ◌&&◌, ◌||◌, Option, none, some}
use badger_rs.Common.{List, [], ◌∷◌}
use badger_rs.Common.{◌==◌, if◌then◌else◌, Bool-cases}
use badger_rs.Common.{==→eq}
use badger_rs.Common.{length, retain, contains}

abbrev pub found_or : Option ℕ → ℕ → Bool
found_or none l = false
found_or (some k) l = k == l

abbrev pub is_some {ℓ} : {A : Type ℓ} → Option A → Bool
is_some none = false
is_some (some a) = true

module _ {ℓ} {V : Type ℓ} where
  unfoldable pub find : ℕ → List (ℕ × V) → Option V
  find k [] = none
  find k ((j, v) ∷ m) = if j == k then some v else find k m

  unfoldable pub put : ℕ → V → List (ℕ × V) → List (ℕ × V)
  put k v [] = (k, v) ∷ []
  put k v ((j, w) ∷ m) = let rest = put k v m in if j == k then (k, v) ∷ m else (j, w) ∷ rest

  unfoldable pub remove_key : ℕ → List (ℕ × V) → List (ℕ × V)
  remove_key k [] = []
  remove_key k ((j, w) ∷ m) = let rest = remove_key k m in if j == k then rest else (j, w) ∷ rest

  pub find-put :
      (k j : ℕ) (v : V) (m : List (ℕ × V))
      → find j (put k v m) ≡ (if k == j then some v else find j m)
  unfolding find put
  find-put k j v [] = refl
  find-put k j v ((i, w) ∷ m) = ground (arith, find-put k j v m)

  pub find-remove :
      (k j : ℕ) (m : List (ℕ × V)) → find j (remove_key k m) ≡ (if k == j then none else find j m)
  unfolding find remove_key
  find-remove k j [] = ground arith
  find-remove k j ((i, w) ∷ m) = ground (arith, find-remove k j m)

  -- No key stands twice.
  abbrev pub DistinctKeys : List (ℕ × V) → Type 0
  DistinctKeys [] = Unit
  DistinctKeys ((k, v) ∷ m) = (is_some (find k m) ≡ false) × DistinctKeys m

  pub put-DistinctKeys :
      (k : ℕ) (v : V) (m : List (ℕ × V)) → DistinctKeys m → DistinctKeys (put k v m)
  unfolding put
  put-DistinctKeys k v [] d = (unfold find in refl, tt)
  put-DistinctKeys k v ((j, w) ∷ m) d = elim (Bool-cases (j == k)) [
    | inl e ↦ let s : j ≡ k = ==→eq j k e in rw e (rw s at d.0, d.1)
    | inr e ↦ rw e (rw find-put (ground (arith, d.0)), put-DistinctKeys k v m d.1)
  ]

  pub remove-DistinctKeys :
      (k : ℕ) (m : List (ℕ × V)) → DistinctKeys m → DistinctKeys (remove_key k m)
  unfolding remove_key
  remove-DistinctKeys k [] d = tt
  remove-DistinctKeys k ((j, w) ∷ m) d = elim (Bool-cases (j == k)) [
    | inl e ↦ rw e (remove-DistinctKeys k m d.1)
    | inr e ↦
        let q : is_some (find j (remove_key k m)) ≡ false =
          ground (arith, find-remove k j m, d.0) in
        rw e (q, remove-DistinctKeys k m d.1)
  ]

  pub length-put :
      (k : ℕ) (v : V) (m : List (ℕ × V))
      → is_some (find k m) ≡ false
      → length (put k v m) ≡ length m + 1
  unfolding put find
  length-put k v [] h = refl
  length-put k v ((j, w) ∷ m) h = ground (arith, length-put k v m)

  remove_absent : (k : ℕ) (m : List (ℕ × V)) → is_some (find k m) ≡ false → remove_key k m ≡ m
  unfolding remove_key find
  remove_absent k [] h = refl
  remove_absent k ((j, w) ∷ m) h = ground (arith, remove_absent k m)

  pub length-remove :
      (k : ℕ) (m : List (ℕ × V))
      → DistinctKeys m
      → is_some (find k m) ≡ true
      → length (remove_key k m) + 1 ≡ length m
  unfolding remove_key find
  length-remove k [] d h = cc
  length-remove k ((j, w) ∷ m) d h = elim (Bool-cases (j == k)) [
    | inl e ↦ let s : j ≡ k = ==→eq j k e in rw (e, remove_absent k m (rw s at d.0)) (omega arith)
    | inr e ↦ rw e (ground (arith, length-remove k m d.1, h))
  ]

unfoldable pub set_insert : ℕ → List ℕ → List ℕ
set_insert a s = if contains a s then s else a ∷ s

unfoldable pub set_remove : ℕ → List ℕ → List ℕ
set_remove a s = retain (λ x. not (x == a)) s

pub contains-set_insert :
    (a b : ℕ) (s : List ℕ) → contains b (set_insert a s) ≡ (a == b || contains b s)
unfolding set_insert
contains-set_insert a b s = elim (Bool-cases (contains a s)) [
  | inl e ↦ rw e (elim (Bool-cases (a == b)) [
    | inl same ↦ let q : a ≡ b = ==→eq a b same in rw same (rw q at e)
    | inr other ↦ rw other refl
  ])
  | inr e ↦ rw e (ground arith)
]

pub contains-set_remove :
    (a b : ℕ) (s : List ℕ) → contains b (set_remove a s) ≡ (not (a == b) && contains b s)
unfolding set_remove
contains-set_remove a b [] = ground arith
contains-set_remove a b (x ∷ s) = ground (arith, contains-set_remove a b s)
