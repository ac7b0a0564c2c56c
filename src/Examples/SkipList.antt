-- ===== src/Examples/SkipList.antt =====
-- Runs of the skip list.
use badger_rs.Common.{◌≢◌}
use badger_rs.Common.{ℕ}
use badger_rs.Common.{◌≡◌, refl, sym, ◌∙◌, inl, inr, arith}
use badger_rs.Common.{true, false, none, some}
use badger_rs.Common.{[], ◌∷◌}
use badger_rs.Common.{◌==◌, Bool-cases}
use badger_rs.Common.{none-some, ==→eq}
use badger_rs.Common.{replicate}
use badger_rs.Common.{some_inj}
use badger_rs.Common.Keys.{key_cmp}
use badger_rs.Common.Maps.{find, put}
use mathlib.Core.Path.{subst}
use badger_rs.Common.Maps
use badger_rs.Value.{ValueStruct, default}
use badger_rs.Skl.Skip.{
  SkipList, get_next, key_at, find_near, find_near_from, find_splice_for_level,
}
use badger_rs.Skl.Skip.Order.{IsList}
use badger_rs.Skl.Skip.Find.{find_near-Nearest}
use badger_rs.Skl.Skip.Near.{Found}
use badger_rs.Skl.Skip.Insert.{
  new, _put, set_next, cas_next_offset, place_at, link_levels, search_levels, add_node,
}
use badger_rs.Skl.Skip.Order.{Has}
use badger_rs.Skl.Skip.{Node}
use badger_rs.Skl.Skip.Iter.{new_uni, new_iterator, uni_rewind}
use badger_rs.Skl.Skip.First.{uni_rewind-bare}
use badger_rs.Skl.Skip.Walk.{Values, key_values-Values}
use badger_rs.Value
use badger_rs.Examples.BigEndian.{big_endian}
use badger_rs.Skl.{Arena}
use badger_rs.Skl.Skip.Room.{InArena, Room}
use badger_rs.Skl.Skip.Stored.{put_nodes, put_nodes-Stored}
use badger_rs.Skl.Skip.GetPut.{GetPut, _put-GetPut, new-IsList}

abbrev empty : SkipList
empty = new 8

abbrev value_of : ℕ → ValueStruct
value_of n = record { meta = 0; user_meta = 0; cas_counter = 0; value = n ∷ [] }

eight : ◌≢◌ {A = ℕ} 8 0
eight e = omega arith

hundred : ◌≢◌ {A = ℕ} 100 0
hundred e = omega arith

empty-IsList : IsList empty
empty-IsList = new-IsList 8 eight

free : find 100 empty.nodes ≡ none
unfolding new find
free = refl

-- One key on two levels.
abbrev one : SkipList
one = record {
  height = 2;
  head = 8;
  nodes =
      (8, record { key = []; value = default; tower = 100 ∷ 100 ∷ replicate 18 0 })
      ∷ (100, record { key = 5 ∷ []; value = value_of 1; tower = replicate 20 0 })
      ∷ [];
}

one_put : put_nodes 100 2 empty (5 ∷ []) (value_of 1) ≡ some one
unfolding put_nodes search_levels find_splice_for_level get_next key_at key_cmp link_levels place_at
    set_next cas_next_offset add_node new find Maps.put
one_put = refl

one-IsList : IsList one
one-IsList =
    let r =
      put_nodes-Stored empty empty-IsList (5 ∷ []) (value_of 1) 100 2 free hundred (omega arith)
        (omega arith) in
    subst IsList (some_inj (sym r.runs ∙ one_put)) r.ok

-- The arena behind the head, a node of 96 bytes.
abbrev behind_head : Arena
behind_head = record { head = 104; tail = 390; cap = 400; bytes = replicate 400 0 }

behind_head-InArena : InArena behind_head empty
unfolding new find
behind_head-InArena = record {
  arena = record {
    sized = refl;
    behind_zero = omega arith;
    ends = omega arith;
    inside = omega arith;
    counted = omega arith;
  };
  below = λ o nd e. elim (Bool-cases (8 == o)) [
    | inl f ↦ omega (arith, ==→eq 8 o f)
    | inr f ↦ absurd (none-some nd (rw f at e))
  ];
}

one_fits : Room 96 behind_head (5 ∷ []) (value_of 1)
unfolding Value.size
one_fits = record {
  key_fits = omega arith;
  in_range = record { meta = omega arith; user_meta = omega arith; cas_counter = omega arith };
  value_fits = omega arith;
  space = omega arith;
}

_put-GetPut_example :
    GetPut empty (5 ∷ []) (value_of 1) (_put 96 2 behind_head empty (5 ∷ []) (value_of 1))
_put-GetPut_example =
    _put-GetPut empty behind_head (5 ∷ []) (value_of 1) 96 2 empty-IsList behind_head-InArena
      one_fits (omega arith) (omega arith) (omega arith)

-- The key is found from below, and nothing is above it.
found_before : find_near one (7 ∷ []) true false ≡ some (some 100, false)
unfolding find_near find_near_from get_next key_at key_cmp find
found_before = refl

found_behind : find_near one (7 ∷ []) false true ≡ some (none, false)
unfolding find_near find_near_from get_next key_at key_cmp find
found_behind = refl

find_near-Nearest_example :
    Found one one-IsList (7 ∷ []) true false (find_near one (7 ∷ []) true false)
find_near-Nearest_example = find_near-Nearest one one-IsList (7 ∷ []) true false

key_values-Values_example : Values one one-IsList
key_values-Values_example = key_values-Values one one-IsList

bare : (m : ℕ) (md : Node) → ¬ (Has empty m md)
unfolding new find
bare m md has = elim (Bool-cases (8 == m)) [
  | inl f ↦ has.1 (sym (==→eq 8 m f))
  | inr f ↦ none-some md (rw f at has.0)
]

uni_rewind-bare_example : uni_rewind (new_uni empty false) ≡ none
unfolding new_uni new_iterator
uni_rewind-bare_example = uni_rewind-bare (new_uni empty false) empty-IsList bare refl
