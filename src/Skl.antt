-- ===== src/Skl.antt =====
-- The memory of the skip list (src/skl): `DoubleAlloc` of src/skl/alloc.rs hands out offsets from both
-- ends, `Arena` of src/skl/arena.rs copies keys and values in from the upper end and nodes from the
-- lower, and src/skl/node.rs packs where a value stands into one word. `none` is a failed assertion.
-- Each function is one step; the race between the test for space and the addition is not modelled.
use badger_rs.Common.{ℕ, ◌+◌, ◌-◌, ◌*◌, ◌/◌, ◌^◌}
use badger_rs.Common.{Option, some}
use badger_rs.Common.{ltb, ◌>>=◌, ◌>>◌}
use badger_rs.Common.{guard, u16, u32}
use badger_rs.Common.{length, replicate}
use badger_rs.Common.{slice}
use badger_rs.Common.Bytes.{Bytes, ByteOrder, overwrite}
use badger_rs.Value.{ValueStruct, into, from}
pub mod Memory
pub mod Packed
pub mod Skip

pub record Arena : Type 0 where
  pub head : ℕ
  pub tail : ℕ
  pub cap : ℕ
  pub bytes : Bytes

-- `(sz + 7) & !7`
unfoldable pub cals_size_with_align : ℕ → ℕ
cals_size_with_align sz = (sz + 7) / 8 * 8

-- Offset 0 is left free, as the offset of no node.
unfoldable pub new_arena : ℕ → Option Arena
new_arena n = do
  guard (ltb 0 n)
  let cap = cals_size_with_align (n + 1)
  some (record { head = 8; tail = cap; cap = cap; bytes = replicate cap 0 })

unfoldable pub free_count : Arena → Option ℕ
free_count a = do guard (ltb a.head a.tail); some (a.tail - a.head)

unfoldable pub alloc : Arena → ℕ → Option (ℕ × Arena)
alloc a size = do
  free ← free_count a
  guard (ltb size free)
  some (a.head, record a { head = a.head + size })

unfoldable pub alloc_rev : Arena → ℕ → Option (ℕ × Arena)
alloc_rev a size = do
  free ← free_count a
  guard (ltb size free)
  some (a.tail - size, record a { tail = a.tail - size })

unfoldable pub len : Arena → ℕ
len a = a.cap - (a.tail - a.head)

unfoldable pub put_key : Arena → Bytes → Option (ℕ × Arena)
put_key a key = do
  (offset, a') ← alloc_rev a (length key)
  some (u32 offset, record a' { bytes = overwrite offset key a.bytes })

-- `size` has the type `u16`.
unfoldable pub get_key : Arena → ℕ → ℕ → Option Bytes
get_key a offset size = slice offset (u16 size) a.bytes

-- The size of a node, rounded up, is a parameter of the struct's layout.
unfoldable pub put_node : ℕ → Arena → Option (ℕ × Arena)
put_node align_size a = do (offset, a') ← alloc a align_size; some (u32 offset, a')

module _ ⦃bo : ByteOrder⦄ where
  unfoldable pub put_val : Arena → ValueStruct → Option ((ℕ × ℕ) × Arena)
  put_val a v = do
    let buf : Bytes = into v
    (offset, a') ← put_key a buf
    some ((offset, u16 (length buf)), a')

  unfoldable pub get_val : Arena → ℕ → ℕ → Option ValueStruct
  get_val a offset size = do buffer ← get_key a offset size; from buffer

-- `(value_size << 32) | value_offset`: the offset has 32 bits, so the two do not meet.
unfoldable pub encode_value : ℕ → ℕ → ℕ
encode_value value_offset value_size = value_size * 2 ^ 32 + value_offset

unfoldable pub decode_value : ℕ → ℕ × ℕ
decode_value value = (u32 value, u16 (value / 2 ^ 32))
