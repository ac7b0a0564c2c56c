-- ===== src/Common/Bytes.antt =====
-- The fixed-width integers that the byte order crate (and tokio's `read_u32`, `write_u32`) reads and
-- writes. That code is not part of the repository: it is a parameter, with the laws that are used.
use Prim.Native.Nat.{◌+◌, ℕ, ◌^◌, ◌<◌}
use mathlib.Core.Path.{◌≡◌}
use mathlib.Core.Option.{Option, none, some}
use mathlib.Core.List.{List, ◌++◌}
use badger_rs.Common.Lists.{length, take, drop}

abbrev pub Bytes : Type 0
Bytes = List ℕ

-- `write_uint w n` is `write_u16`, `write_u32` or `write_u64` for `w` = 2, 4, 8 bytes; `read_uint`
-- returns the number with the bytes behind it, or `none` at the end of the input.
pub record ByteOrder : Type 0 where
  pub write_uint : ℕ → ℕ → Bytes
  pub read_uint : ℕ → Bytes → Option (ℕ × Bytes)
  pub length-write : (w n : ℕ) → length (write_uint w n) ≡ w
  pub read-write :
      (w n : ℕ) (rest : Bytes) → n < 256 ^ w → read_uint w (write_uint w n ++ rest) ≡ some (n, rest)
  pub read-short : (w : ℕ) (bs : Bytes) → length bs < w → read_uint w bs ≡ none
  pub length-read :
      (w n : ℕ) (bs rest : Bytes) → read_uint w bs ≡ some (n, rest) → length rest + w ≡ length bs

-- A write into a file or a buffer at a position: what stood there is overwritten.
abbrev pub overwrite : ℕ → Bytes → Bytes → Bytes
overwrite position bs file = take position file ++ (bs ++ drop (position + length bs) file)
