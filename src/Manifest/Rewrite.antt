-- ===== src/Manifest/Rewrite.antt =====
-- The changes that a rewrite writes rebuild the tables of the manifest.
use badger_rs.Manifest.{is_done}
use badger_rs.Common.{ℕ, ◌+◌, ◌%◌, ◌^◌, ◌<◌}
use badger_rs.Common.{◌≡◌, refl, ◌∙◌, inl, inr, arith}
use badger_rs.Common.{true, false, Option, none, some}
use badger_rs.Common.{List, [], ◌∷◌, map}
use badger_rs.Common.{◌==◌, if◌then◌else◌, Bool-cases}
use badger_rs.Common.{==→eq}
use badger_rs.Common.{length, All}
use badger_rs.Common.Maps.{is_some, find, put, find-put, DistinctKeys}
use badger_rs.Manifest.{
  Manifest, new, Outcome, done, apply_create, apply_manifest_change, apply_manifest_change_set,
  create_change, as_changes, dispatch,
}

abbrev or_find : Option ℕ → Option ℕ → Option ℕ
or_find none b = b
or_find (some a) b = some a

absent :
    (k : ℕ) (ts : List (ℕ × ℕ)) → is_some (find k ts) ≡ false → All (λ p. (k == p.0) ≡ false) ts
unfolding find
absent k [] h = tt
absent k ((j, v) ∷ ts) h = (ground arith, absent k ts (ground arith))

still_free :
    (k v : ℕ) (m ts : List (ℕ × ℕ))
    → All (λ p. (k == p.0) ≡ false) ts
    → All (λ p. is_some (find p.0 m) ≡ false) ts
    → All (λ p. is_some (find p.0 (put k v m)) ≡ false) ts
still_free k v m [] a b = tt
still_free k v m ((j, w) ∷ ts) a b =
    (rw find-put (ground (arith, a.0, b.0)), still_free k v m ts a.1 b.1)

is_some-none : (o : Option ℕ) → is_some o ≡ false → o ≡ none
is_some-none none h = refl
is_some-none (some v) h = cc

find_after :
    (id k v : ℕ) (ts : List (ℕ × ℕ)) (old : Option ℕ)
    → is_some (find k ts) ≡ false
    → or_find (find id ts) (if k == id then some v else old) ≡ or_find (find id ((k, v) ∷ ts)) old
find_after id k v ts old h = elim (Bool-cases (k == id)) [
  | inl e ↦
      let same : k ≡ id = ==→eq k id e in
      let gone : find id ts ≡ none = is_some-none (find id ts) (rw same at h) in
      rw gone (rw e (unfold find in rw e refl))
  | inr e ↦ rw e (unfold find in rw e refl)
]

record Rebuilt (m0 : Manifest) (ts : List (ℕ × ℕ)) (out : Manifest × Outcome) : Type 0 where
  finished : out.1 ≡ done
  tables : (id : ℕ) → find id out.0.tables ≡ or_find (find id ts) (find id m0.tables)
  creations : out.0.creations ≡ m0.creations + length ts
  deletions : out.0.deletions ≡ m0.deletions

rebuild :
    (ts : List (ℕ × ℕ)) (m0 : Manifest)
    → DistinctKeys ts
    → All (λ p. p.1 < 2 ^ 8) ts
    → All (λ p. is_some (find p.0 m0.tables) ≡ false) ts
    → Rebuilt m0 ts (apply_manifest_change_set m0 (map create_change ts))
unfolding apply_manifest_change_set
rebuild [] m0 d f free = record {
  finished = refl;
  tables = λ id. unfold find in refl;
  creations = omega arith;
  deletions = refl;
}
rebuild ((k, v) ∷ ts) m0 d f free =
    let c = create_change (k, v) in
    let m1 = (apply_manifest_change m0 c).0 in
    let low : v % 2 ^ 8 ≡ v = omega (arith, f.0) in
    let made : is_done (apply_manifest_change m0 c).1 ≡ true =
      unfold apply_manifest_change in unfold dispatch in unfold apply_create in rw (free.0) refl in
    let kept : m1.tables ≡ put k v m0.tables =
      unfold apply_manifest_change in
      unfold dispatch in unfold apply_create in rw (free.0, low) refl in
    let counts : (m1.creations ≡ m0.creations + 1) × (m1.deletions ≡ m0.deletions) =
      unfold apply_manifest_change in
      unfold dispatch in unfold apply_create in rw (free.0) (refl, refl) in
    let ih =
      rebuild ts m1 d.1 f.1 (rw kept (still_free k v m0.tables ts (absent k ts d.0) free.1)) in
    record {
      finished = rw made ih.finished;
      tables = λ id.
          rw made
            (ih.tables id ∙ rw (kept, find-put) (find_after id k v ts (find id m0.tables) d.0));
      creations = rw made (omega (arith, ih.creations, counts.0));
      deletions = rw made (ih.deletions ∙ counts.1);
    }

-- Replaying the change set that a rewrite writes, from an empty manifest, gives back every table on
-- its level, as many creations as tables, and no deletions; no id stands twice and every level fits
-- its byte.
pub as_changes-rebuilds :
    (m : Manifest)
    → DistinctKeys m.tables
    → All (λ p. p.1 < 2 ^ 8) m.tables
    → ((apply_manifest_change_set new (as_changes m)).1 ≡ done)
      × (((id : ℕ)
            → find id (apply_manifest_change_set new (as_changes m)).0.tables ≡ find id m.tables)
          × (((apply_manifest_change_set new (as_changes m)).0.creations ≡ length m.tables)
              × ((apply_manifest_change_set new (as_changes m)).0.deletions ≡ 0)))
unfolding as_changes find
as_changes-rebuilds m d f =
    let r = rebuild m.tables new d f (none_there m.tables) in
    (
      r.finished,
      (λ id. r.tables id ∙ or_none (find id m.tables), (r.creations ∙ omega arith, r.deletions)),
    )
  where
    none_there : (ts : List (ℕ × ℕ)) → All (λ p. is_some {A = ℕ} (find p.0 []) ≡ false) ts
    none_there [] = tt
    none_there (p ∷ ts) = (unfold find in refl, none_there ts)

    or_none : (o : Option ℕ) → or_find o none ≡ o
    or_none none = refl
    or_none (some v) = refl
