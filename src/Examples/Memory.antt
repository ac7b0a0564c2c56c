-- ===== src/Examples/Memory.antt =====
-- Runs of the skip list's memory.
use badger_rs.Common.{ℕ, ◌^◌, ◌≤◌, ◌<◌}
use badger_rs.Common.{◌≡◌, refl, arith}
use badger_rs.Common.{some}
use badger_rs.Common.{[], ◌∷◌, ◌++◌}
use badger_rs.Common.{replicate}
use badger_rs.Value.{ValueStruct, into, write_data}
use badger_rs.Value
use badger_rs.Skl.{Arena, free_count, alloc_rev, put_key, get_key, put_val, get_val}
use badger_rs.Skl.Memory.{IsArena, get_key-put_key, get_val-put_val}
use badger_rs.Examples.BigEndian.{big_endian, write_be}

abbrev arena : Arena
arena = record { head = 8; tail = 32; cap = 32; bytes = replicate 32 0 }

arena-IsArena : IsArena arena
arena-IsArena = record {
  sized = refl;
  behind_zero = omega arith;
  ends = omega arith;
  inside = omega arith;
  counted = omega arith;
}

abbrev with_key : Arena
with_key = record arena { tail = 29; bytes = replicate 29 0 ++ (1 ∷ 2 ∷ 3 ∷ []) }

puts : put_key arena (1 ∷ 2 ∷ 3 ∷ []) ≡ some (29, with_key)
unfolding put_key alloc_rev free_count
puts = refl

get_key-put_key_example :
    IsArena with_key
    × ((get_key with_key 29 3 ≡ some (1 ∷ 2 ∷ 3 ∷ []))
        × ((off n : ℕ) → 32 ≤ off → get_key with_key off n ≡ get_key arena off n))
get_key-put_key_example =
    get_key-put_key arena with_key (1 ∷ 2 ∷ 3 ∷ []) 29 arena-IsArena (omega arith) puts

abbrev value : ValueStruct
value = record { meta = 1; user_meta = 2; cas_counter = 3; value = 7 ∷ [] }

abbrev with_value : Arena
with_value = record arena {
  tail = 21;
  bytes = replicate 21 0 ++ (1 ∷ 2 ∷ 0 ∷ 0 ∷ 0 ∷ 0 ∷ 0 ∷ 0 ∷ 0 ∷ 3 ∷ 7 ∷ []);
}

puts_value : put_val arena value ≡ some ((21, 11), with_value)
unfolding put_val put_key alloc_rev free_count into write_data write_be
puts_value = refl

value_short : Value.size value < 2 ^ 16
unfolding Value.size
value_short = omega arith

get_val-put_val_example : get_val with_value 21 11 ≡ some value
get_val-put_val_example =
    get_val-put_val arena with_value value 21 11 arena-IsArena
      (record { meta = omega arith; user_meta = omega arith; cas_counter = omega arith })
      value_short puts_value
