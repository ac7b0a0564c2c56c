-- ===== src/Skl/Skip/Fresh.antt =====
-- The list that `SkipList::new` of src/skl/skip.rs makes, in its arena.
use badger_rs.Common.{ℕ, ◌+◌, ◌^◌, ◌<◌}
use badger_rs.Common.{◌≡◌, refl, arith}
use badger_rs.Common.{true, some}
use badger_rs.Common.{[]}
use badger_rs.Common.{ltb}
use badger_rs.Common.{lt→ltb}
use badger_rs.Common.{replicate}
use badger_rs.Common.{length-replicate}
use badger_rs.Common.Bytes.{ByteOrder}
use badger_rs.Value.{default, size}
use badger_rs.Skl.{Arena, new_arena, cals_size_with_align}
use badger_rs.Skl.Memory.{IsArena}
use badger_rs.Skl.Skip.{SkipList}
use badger_rs.Skl.Skip.Order.{IsList}
use badger_rs.Skl.Skip.Insert.{new, new_list}
use badger_rs.Skl.Skip.GetPut.{only_head, new-IsList}
use badger_rs.Skl.Skip.Room.{InArena, Room, new_node-Built}

module _ ⦃bo : ByteOrder⦄ where
  -- With room for the head, and offsets of 32 bits, the new list is in order and stands in its arena.
  pub new_list-InArena :
      (align_size arena_size : ℕ)
      → 0 < align_size
      → 0 < arena_size
      → 18 + align_size < cals_size_with_align (arena_size + 1)
      → cals_size_with_align (arena_size + 1) < 2 ^ 32
      → (a : Arena) × ((l : SkipList) × ((new_list align_size arena_size ≡ some (a, l))
            × (IsList l × InArena a l)))
  unfolding new_list new_arena size
  new_list-InArena align_size arena_size some_size some_arena room counted =
      let cap = cals_size_with_align (arena_size + 1) in
      let a0 : Arena = record { head = 8; tail = cap; cap = cap; bytes = replicate cap 0 } in
      let whole : IsArena a0 = record {
        sized = length-replicate {A = ℕ} cap 0;
        behind_zero = omega arith;
        ends = omega (arith, room);
        inside = omega arith;
        counted = counted;
      } in
      let fits : Room align_size a0 [] default = record {
        key_fits = omega arith;
        in_range = record {
          meta = omega arith;
          user_meta = omega arith;
          cas_counter = omega arith;
        };
        value_fits = omega arith;
        space = omega (arith, room);
      } in
      let n = new_node-Built align_size a0 [] default whole fits in
      let start : ltb 0 arena_size ≡ true = lt→ltb _ _ some_arena in
      (
        n.a',
        (
          new 8,
          (
            rw start (rw n.runs refl),
            (
              new-IsList 8 (λ e. omega (arith, e)),
              record {
                arena = n.ok;
                below = λ o nd e. omega (arith, (only_head 8 o nd e).0, n.head, some_size);
              },
            ),
          ),
        ),
      )
