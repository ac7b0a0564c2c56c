-- ===== src/Examples/Merging.antt =====
-- Runs of the merge iterator over lists.
use badger_rs.Common.{ℕ, zero, suc, ◌<◌}
use badger_rs.Common.{◌≡◌, refl, sym, ◌∙◌, ◌≢◌, arith}
use badger_rs.Common.{true, false, Option, none, some}
use badger_rs.Common.{List, [], ◌∷◌}
use badger_rs.Common.{if◌then◌else◌}
use badger_rs.Common.{length, get_elem?}
use badger_rs.Common.{some_inj}
use badger_rs.Common.Keys.{Key, key_cmp, key_lt}
use badger_rs.Common.Slices.{insert_sorted}
use badger_rs.Common.Maps.{is_some}
use badger_rs.Value.{default}
use badger_rs.LevelHandler.Lookup.{IteratorItem}
use badger_rs.Merge.{
  Xiterator, MergeIterator, IterRef, build, next, rewind, collect, drain_all, rewind_all,
  rewind_one, push_first_other, push_item_into_heap, reset, replace, _next, next_from, pop,
  pop_item_from_heap, set_iter_empty, advance, move_same, init_heap_by_indexes, push_peeked, cmp,
}
use badger_rs.Merge.Invariant.{peek_at}
use badger_rs.Merge.{in_front, cmp}
use mathlib.Core.Path.{subst}
use badger_rs.Merge.Drain.{Other}
use badger_rs.Merge.Heap.{lookup}
use badger_rs.Merge.Refines.{NextPick, next-pick, next-own_key, rests}
use badger_rs.Merge.Refill.{Ready}
use badger_rs.Merge.Pick.{pick}
use badger_rs.Merge.Start.{Drained, drain_all-Drained}
use badger_rs.Merge.Pick.{head, tail, pick}
use badger_rs.Merge.Refill.{Lawful, Ready}
use badger_rs.Merge.Refines.{NextPick, next-pick, next-own_key, rests}
use badger_rs.Merge.Start.{Drained, drain_all-Drained}

-- A list with the items that are left.
abbrev Walk : Type 0
Walk = List IteratorItem × List IteratorItem

abbrev from_key : Key → List IteratorItem → List IteratorItem
from_key k [] = []
from_key k (y ∷ ys) = if key_lt y.0 k then from_key k ys else y ∷ ys

instance abbrev walking : Xiterator Walk
walking = record {
  next = λ w. (head (tail w.1), (w.0, tail w.1));
  rewind = λ w. (head w.0, (w.0, w.0));
  seek = λ k w. (head (from_key k w.0), (w.0, from_key k w.0));
  peek = λ w. head w.1;
}

abbrev walking-Lawful : Lawful walking
walking-Lawful = record {
  rest = λ w. w.1;
  peek-rest = λ w. refl;
  next-rest = λ w item e. refl;
  rewind-peek = λ w. refl;
  seek-peek = λ k w. refl;
}

abbrev item : ℕ → ℕ → IteratorItem
item k v = (k ∷ [], record { meta = 0; user_meta = 0; cas_counter = 0; value = v ∷ [] })

abbrev own : IteratorItem
own = (33 ∷ 98 ∷ 97 ∷ 100 ∷ 103 ∷ 101 ∷ 114 ∷ 33 ∷ 104 ∷ [], default)

abbrev newer : List IteratorItem
newer = own ∷ item 65 1 ∷ item 67 1 ∷ []

abbrev older : List IteratorItem
older = item 65 2 ∷ item 66 2 ∷ []

abbrev two : MergeIterator Walk
two = build ((newer, []) ∷ (older, []) ∷ []) false

few_two : length two.itrs < 18446744073709551615
unfolding build
few_two = omega arith

nonempty : two.itrs ≢ []
unfolding build
nonempty e = cc

-- The items come out in order, the newer one of the common key.
abbrev items_of : Option (List IteratorItem × MergeIterator Walk) → Option (List IteratorItem)
items_of none = none
items_of (some (items, m)) = some items

drained : items_of (drain_all 9 two) ≡ some (item 65 1 ∷ item 66 2 ∷ item 67 1 ∷ [])
unfolding drain_all build rewind rewind_all rewind_one push_first_other push_item_into_heap reset
    replace next _next next_from pop pop_item_from_heap set_iter_empty advance move_same
    init_heap_by_indexes push_peeked collect insert_sorted cmp key_cmp
drained = refl

drain_all-Drained_example : Drained walking-Lawful 9 two
unfolding build key_cmp
drain_all-Drained_example =
    drain_all-Drained walking-Lawful 9 two nonempty refl few_two (omega arith, (omega arith, tt))
      (((refl, tt), (tt, tt)), (((refl, tt), (tt, tt)), tt))
      ((refl, (refl, tt)), ((refl, (refl, tt)), tt)) (omega arith)

abbrev ref : ℕ → IteratorItem → IterRef
ref i a = record { index = i; key = a; rev = false }

abbrev standing : IteratorItem → MergeIterator Walk
standing a = record {
  reverse = false;
  itrs = (newer, a ∷ []) ∷ (older, older) ∷ [];
  cursor = record { index = 0; cur_item = none };
  heap = ref 0 a ∷ ref 1 (item 65 2) ∷ [];
  heap_flag = true ∷ true ∷ [];
}

flagged :
    (a : IteratorItem) (i : ℕ)
    → get_elem? (standing a).heap_flag i ≡ elim (get_elem? (standing a).itrs i) [
      | none ↦ none
      | some s ↦ some (is_some (lookup i (standing a).heap))
    ]
flagged a zero = refl
flagged a (suc zero) = refl
flagged a (suc (suc i)) = refl

filled : (a : IteratorItem) (i : ℕ) → lookup i (standing a).heap ≡ peek_at i (standing a).itrs
filled a zero = refl
filled a (suc zero) = refl
filled a (suc (suc i)) = ground arith

standing-Ready :
    (a : IteratorItem) → in_front (ref 0 a) (ref 1 (item 65 2)) ≡ true → Ready (standing a)
standing-Ready a e = record {
  holds = record {
    heap_ok = record {
      distinct = (refl, (refl, tt));
      sorted = ((e, tt), (tt, tt));
      directed = (refl, (refl, tt));
    };
    flagged = flagged a;
    filled = filled a;
  };
  few = omega arith;
  placed = refl;
}

common_first : in_front (ref 0 (item 65 1)) (ref 1 (item 65 2)) ≡ true
unfolding cmp key_cmp
common_first = refl

own_first : in_front (ref 0 own) (ref 1 (item 65 2)) ≡ true
unfolding cmp key_cmp
own_first = refl

common_picked : pick false (rests walking-Lawful (standing (item 65 1))) ≡ some (item 65 1)
unfolding pick key_cmp
common_picked = refl

next-pick_example : NextPick walking-Lawful (standing (item 65 1))
next-pick_example =
    next-pick walking-Lawful (standing (item 65 1)) (standing-Ready (item 65 1) common_first)
      (λ a e. subst Other (some_inj (sym common_picked ∙ e)) refl)

own_picked : pick false (rests walking-Lawful (standing own)) ≡ some own
unfolding pick key_cmp
own_picked = refl

next-own_key_example : next (standing own) ≡ none
next-own_key_example =
    next-own_key walking-Lawful (standing own) own (standing-Ready own own_first) own_picked refl
