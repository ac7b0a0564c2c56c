-- ===== src/ValueLog.antt =====
-- The entries of the value log (src/value_log.rs, `Header`, `Entry`, `ValuePointer`). `none` is a panic
-- or an error of a read. The checksum comes from another crate; it is a parameter.
use badger_rs.Common.{ℕ, ◌+◌, ◌-◌, ◌^◌}
use badger_rs.Common.{Bool, not, ◌&&◌, Option, some}
use badger_rs.Common.{◌++◌}
use badger_rs.Common.{ltb, ◌==◌, if◌then◌else◌, ◌>>=◌, ◌>>◌}
use badger_rs.Common.{guard, u32}
use badger_rs.Common.{length, take, drop, replicate}
use badger_rs.Common.{slice}
use badger_rs.Common.Bytes.{Bytes, ByteOrder}
pub mod Layout
pub mod RoundTrip
pub mod Pointer

pub record Header : Type 0 where
  pub k_len : ℕ
  pub v_len : ℕ
  pub meta : ℕ
  pub user_mata : ℕ
  pub cas_counter : ℕ
  pub cas_counter_check : ℕ

-- `size_of` of the struct in C layout: 26 bytes of fields, and six of padding in front of the first
-- `u64`.
abbrev pub encoded_size : ℕ
encoded_size = 32

pub record Entry : Type 0 where
  pub key : Bytes
  pub meta : ℕ
  pub user_meta : ℕ
  pub value : Bytes
  pub cas_counter_check : ℕ
  pub offset : ℕ
  pub cas_counter : ℕ

pub record ValuePointer : Type 0 where
  pub fid : ℕ
  pub len : ℕ
  pub offset : ℕ

abbrev pub header_of : Entry → Header
header_of e = record {
  k_len = u32 (length e.key);
  v_len = u32 (length e.value);
  meta = e.meta;
  user_mata = e.user_meta;
  cas_counter = e.cas_counter;
  cas_counter_check = e.cas_counter_check;
}

-- A write into `&mut buffer[start..]`: it stops at the end of the buffer.
unfoldable pub write_at : ℕ → Bytes → Bytes → Bytes
write_at start bs buffer =
    take start buffer ++ (take (length buffer - start) bs ++ drop (start + length bs) buffer)

unfoldable pub less : ValuePointer → ValuePointer → Bool
less self o =
    if not (self.fid == o.fid)
    then ltb self.fid o.fid
    else if not (self.offset == o.offset)
    then ltb self.offset o.offset
    else ltb self.len o.len

unfoldable pub is_zero : ValuePointer → Bool
is_zero p = p.fid == 0 && (p.offset == 0 && p.len == 0)

module _ ⦃bo : ByteOrder⦄ where
  unfoldable pub enc_header : Header → Bytes
  enc_header h =
      bo.write_uint 4 h.k_len
      ++ (bo.write_uint 4 h.v_len
          ++ (bo.write_uint 1 h.meta
              ++ (bo.write_uint 1 h.user_mata
                  ++ (bo.write_uint 8 h.cas_counter ++ bo.write_uint 8 h.cas_counter_check))))

  unfoldable pub dec_header : Bytes → Option (Header × Bytes)
  dec_header rd = do
    (k, r1) ← bo.read_uint 4 rd
    (v, r2) ← bo.read_uint 4 r1
    (m, r3) ← bo.read_uint 1 r2
    (u, r4) ← bo.read_uint 1 r3
    (c, r5) ← bo.read_uint 8 r4
    (cc, r6) ← bo.read_uint 8 r5
    some (
      record {
        k_len = k;
        v_len = v;
        meta = m;
        user_mata = u;
        cas_counter = c;
        cas_counter_check = cc;
      },
      r6,
    )

  unfoldable pub enc_pointer : ValuePointer → Bytes
  enc_pointer p = bo.write_uint 4 p.fid ++ (bo.write_uint 4 p.len ++ bo.write_uint 4 p.offset)

  unfoldable pub dec_pointer : Bytes → Option (ValuePointer × Bytes)
  dec_pointer rd = do
    (f, r1) ← bo.read_uint 4 rd
    (l, r2) ← bo.read_uint 4 r1
    (o, r3) ← bo.read_uint 4 r2
    some (record { fid = f; len = l; offset = o }, r3)

  -- The sums of the lengths are `u32`: one that does not fit is a panic.
  unfoldable pub enc_entry : (Bytes → ℕ) → Entry → Option Bytes
  enc_entry crc32 e = do
    let h : Header = header_of e
    guard (ltb (h.k_len + h.v_len + 4) (2 ^ 32))
    let start = encoded_size + h.k_len
    let stop = start + h.v_len
    let b0 : Bytes = replicate (encoded_size + (h.k_len + h.v_len + 4)) 0
    let b1 : Bytes = write_at 0 (enc_header h) b0
    let b2 : Bytes = write_at encoded_size e.key b1
    let b3 : Bytes = write_at start e.value b2
    some (write_at stop (bo.write_uint 4 (crc32 (take stop b3))) b3)

  unfoldable pub dec_entry : Entry → Bytes → Option (Entry × Bytes)
  dec_entry self rd = do
    buffer ← slice 0 encoded_size rd
    (h, _) ← dec_header buffer
    key ← slice encoded_size h.k_len rd
    value ← slice (encoded_size + h.k_len) h.v_len rd
    (_, rest) ← bo.read_uint 4 (drop (encoded_size + h.k_len + h.v_len) rd)
    some (
      record {
        key = key;
        meta = h.meta;
        user_meta = h.user_mata;
        value = value;
        cas_counter_check = h.cas_counter_check;
        offset = self.offset;
        cas_counter = h.cas_counter;
      },
      rest,
    )

  -- The key and the value are vectors of zeros to which the bytes are appended.
  unfoldable pub from_slice : ℕ → Bytes → Option Entry
  from_slice cursor_offset m = do
    buffer ← slice cursor_offset encoded_size m
    (h, _) ← dec_header buffer
    let start = cursor_offset + encoded_size
    key ← slice start h.k_len m
    value ← slice (start + h.k_len) h.v_len m
    bytes ← slice (start + h.k_len + h.v_len) 4 m
    (_, _) ← bo.read_uint 4 bytes
    some (record {
      key = replicate h.k_len 0 ++ key;
      meta = h.meta;
      user_meta = h.user_mata;
      value = replicate h.v_len 0 ++ value;
      cas_counter_check = h.cas_counter_check;
      offset = cursor_offset;
      cas_counter = h.cas_counter;
    })
