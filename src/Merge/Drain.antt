-- ===== src/Merge/Drain.antt =====
-- Draining the merge iterator: `while let Some(item) = itr.next()`.
use badger_rs.Common.{ℕ, zero, suc, ◌<◌}
use badger_rs.Common.{◌≡◌, refl, sym, ◌∙◌, inl, inr, arith}
use badger_rs.Common.{false, none, some}
use badger_rs.Common.{List, [], ◌∷◌, map}
use badger_rs.Common.{Bool-cases, Option-cases}
use badger_rs.Common.{All}
use badger_rs.Common.Keys.{Key, key_eq, key_cmp_eq}
use badger_rs.LevelHandler.Lookup.{IteratorItem}
use badger_rs.Merge.{Xiterator, MergeIterator, badger_prefix, starts_with, collect}
use badger_rs.Merge.Ascend.{first_find-nothing}
use badger_rs.Merge.Pick.{past_key, pick}
use badger_rs.Merge.Refill.{Lawful, Ready}
use badger_rs.Merge.Refines.{rests, picked, NextPick, next-pick}
use badger_rs.Merge.Ascend.{
  After, Ascends, find_key, first_find, total, AllItems, pick-All, pick-HeadNotBefore, past-After,
  past-Ascends, past-AllItems, first_find-past, first_find-pick, total-past,
}
use badger_rs.Merge.Heap.{dir_cmp_refl}

-- No key of the program itself.
abbrev pub Other : IteratorItem → Type 0
Other z = starts_with z.0 badger_prefix ≡ false

module _ {S : Type 0} ⦃x : Xiterator S⦄ (l : Lawful x) where
  pub record Merged (fuel : ℕ) (m : MergeIterator S) : Type 0 where
    pub items : List IteratorItem
    pub m' : MergeIterator S
    pub runs : collect fuel m ≡ some (items, m')
    pub ascends : Ascends m.reverse items
    pub finds : (k : Key) → find_key k items ≡ first_find k (rests l m)
    pub behind :
        (k : Key) → AllItems (After m.reverse k) (rests l m) → All (After m.reverse k) items

  collect_step :
      (fuel : ℕ) (m : MergeIterator S) (a : IteratorItem)
      → All (Ascends m.reverse) (rests l m)
      → pick m.reverse (rests l m) ≡ some a
      → (step : NextPick l m) → rests l step.m' ≡ map (past_key a.0) (rests l m)
      → Merged fuel step.m'
      → Merged (suc fuel) m
  unfolding collect
  collect_step fuel m a o e step lists rest =
      let least =
        pick-HeadNotBefore m.reverse (rests l m) a.0
          (λ y f g. ground (arith, e, f, g, dir_cmp_refl m.reverse a.0)) in
      let behind : (k : Key)
          → AllItems (After m.reverse k) (map (past_key a.0) (rests l m))
          → All (After m.reverse k) rest.items =
        λ k h. rw (← step.reverse) (rest.behind k (rw (lists, step.reverse) h)) in
      record {
        items = a ∷ rest.items;
        m' = rest.m';
        runs = rw (step.runs, e, rest.runs) refl;
        ascends = (
          behind a.0 (past-After m.reverse a.0 (rests l m) o least),
          rw step.reverse at rest.ascends,
        );
        finds = λ k. elim (Bool-cases (key_eq a.0 k)) [
          | inl f ↦
              let same : a.0 ≡ k = key_cmp_eq a.0 k (ground (arith, f)) in
              rw (f, ← same) (sym (first_find-pick m.reverse (rests l m) a o e))
          | inr f ↦ rw f (rest.finds k ∙ rw lists (first_find-past k a.0 (rests l m) f))
        ];
        behind = λ k h. (
          pick-All (After m.reverse k) m.reverse (rests l m) a h e,
          behind k (past-AllItems (After m.reverse k) a.0 (rests l m) h),
        );
      }

  collect_end :
      (fuel : ℕ) (m : MergeIterator S)
      → pick m.reverse (rests l m) ≡ none
      → NextPick l m
      → Merged (suc fuel) m
  unfolding collect
  collect_end fuel m e step = record {
    items = [];
    m' = step.m';
    runs = rw (step.runs, e) refl;
    ascends = tt;
    finds = λ k. sym (first_find-nothing m.reverse (rests l m) k e);
    behind = λ k h. tt;
  }

  -- Draining the merge ends, within one step more than there are items, and gives the items in strict
  -- order, for each key the one that the first list with the key has, and no other; no step panics.
  -- The state is ready, the lists are in strict order and have no key of the program itself.
  pub collect-Merged :
      (fuel : ℕ) (m : MergeIterator S)
      → Ready m
      → All (Ascends m.reverse) (rests l m)
      → AllItems Other (rests l m)
      → total (rests l m) < fuel
      → Merged fuel m
  collect-Merged zero m ok o c enough = absurd (omega arith)
  collect-Merged (suc fuel) m ok o c enough =
      let step = next-pick l m ok (λ a e. pick-All Other m.reverse (rests l m) a c e) in
      elim (Option-cases (pick m.reverse (rests l m))) [
        | inl e ↦ collect_end fuel m e step
        | inr (a, e) ↦
            let lists : rests l step.m' ≡ map (past_key a.0) (rests l m) =
              step.rests' ∙ rw (picked, e) refl in
            collect_step fuel m a o e step lists (
              collect-Merged fuel step.m' step.ready
                (rw (lists, step.reverse) (past-Ascends m.reverse a.0 (rests l m) o))
                (rw lists (past-AllItems Other a.0 (rests l m) c))
                (rw lists (omega (arith, total-past m.reverse (rests l m) a e))))
      ]
