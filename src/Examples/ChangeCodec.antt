-- ===== src/Examples/ChangeCodec.antt =====
-- A codec for change sets: three numbers for a change, and a sum in place of the checksum. It shows that
-- the interface `Codec` can be met; and a file that reads up to 2^21 bytes at once, for `FileRead`.
use badger_rs.Common.{ℕ, zero, suc, ◌+◌, ◌%◌, ◌^◌, ◌<◌}
use badger_rs.Common.{◌≡◌, refl, arith}
use badger_rs.Common.{Option, none, some}
use badger_rs.Common.{List, [], ◌∷◌}
use badger_rs.Common.{leb, if◌then◌else◌, ◌>>=◌}
use badger_rs.Common.Bytes.{Bytes}
use badger_rs.Manifest.{Change, Operation, create, delete, unknown}
use badger_rs.Manifest.File.{Codec, FileRead}
use native.Mathlib.Nat.{mod-lt}

abbrev pub code : Operation → ℕ
code create = 0
code delete = 1
code unknown = 2

abbrev pub op_of : ℕ → Operation
op_of zero = create
op_of (suc zero) = delete
op_of _ = unknown

op_of-code : (op : Operation) → op_of (code op) ≡ op
op_of-code create = refl
op_of-code delete = refl
op_of-code unknown = refl

unfoldable pub write_changes : List Change → Bytes
write_changes [] = []
write_changes (c ∷ cs) = c.id ∷ c.level ∷ code c.op ∷ write_changes cs

unfoldable pub read_changes : Bytes → Option (List Change)
read_changes [] = some []
read_changes (_ ∷ []) = none
read_changes (_ ∷ _ ∷ []) = none
read_changes (id ∷ level ∷ op ∷ bs) = do
  cs ← read_changes bs
  some (record { id = id; level = level; op = op_of op } ∷ cs)

pub read-write_changes : (cs : List Change) → read_changes (write_changes cs) ≡ some cs
unfolding read_changes write_changes
read-write_changes [] = refl
read-write_changes (c ∷ cs) = rw (read-write_changes cs, op_of-code c.op) refl

unfoldable pub sum : Bytes → ℕ
sum [] = 0
sum (b ∷ bs) = (b + sum bs) % 256 ^ 4

pub sum_fits : (bs : Bytes) → sum bs < 256 ^ 4
unfolding sum
sum_fits [] = omega arith
sum_fits (b ∷ bs) = mod-lt (b + sum bs) (omega arith)

instance abbrev pub change_codec : Codec
change_codec = record {
  to_vec = write_changes;
  from_vec = read_changes;
  crc32 = sum;
  from-to = read-write_changes;
  crc32_fits = sum_fits;
}

abbrev least : ℕ → ℕ → ℕ
least a b = if leb a b then a else b

instance abbrev pub file_read : FileRead
file_read = record {
  count = λ wanted there. least wanted (least there (2 ^ 21));
  buffer_size = 2 ^ 21;
  four = omega arith;
  count_wanted = λ wanted there. ground arith;
  count_there = λ wanted there. ground arith;
  count_whole = λ wanted there h k. ground (arith, h, k);
}
