-- ===== src/Value.antt =====
-- The value that stands beside a key (src/y/iterator.rs, `ValueStruct`): a meta byte, a user meta byte,
-- the compare-and-set counter and the bytes of the value.
use badger_rs.Common.{ℕ, ◌+◌, ◌^◌, ◌<◌}
use badger_rs.Common.{Option, some}
use badger_rs.Common.{[], ◌++◌}
use badger_rs.Common.{length, drop}
use badger_rs.Common.Bytes.{Bytes, ByteOrder}
use badger_rs.Common.{◌>>=◌}
pub mod RoundTrip

pub record ValueStruct : Type 0 where
  pub meta : ℕ
  pub user_meta : ℕ
  pub cas_counter : ℕ
  pub value : Bytes

abbrev pub default : ValueStruct
default = record { meta = 0; user_meta = 0; cas_counter = 0; value = [] }

abbrev pub header_size : ℕ
header_size = 10

unfoldable pub size : ValueStruct → ℕ
size v = header_size + length v.value

-- The fields have their machine types: `u8`, `u8`, `u64`.
pub record InRange (v : ValueStruct) : Type 0 where
  pub meta : v.meta < 256 ^ 1
  pub user_meta : v.user_meta < 256 ^ 1
  pub cas_counter : v.cas_counter < 256 ^ 8

module _ ⦃bo : ByteOrder⦄ where
  -- `write_data` fills a buffer of `size` bytes, as `into` allots it.
  unfoldable pub write_data : ValueStruct → Bytes
  write_data v =
      bo.write_uint 1 v.meta
      ++ (bo.write_uint 1 v.user_meta ++ (bo.write_uint 8 v.cas_counter ++ v.value))

  unfoldable pub into : ValueStruct → Bytes
  unfolding write_data
  into v = write_data v

  -- `none` is a panic: each `unwrap` of a read at the end of the buffer.
  unfoldable pub read_data : ValueStruct → Bytes → Option ValueStruct
  read_data v buffer = do
    (m, r1) ← bo.read_uint 1 buffer
    (u, r2) ← bo.read_uint 1 r1
    (c, r3) ← bo.read_uint 8 r2
    some (record {
      meta = m;
      user_meta = u;
      cas_counter = c;
      value = v.value ++ drop header_size buffer;
    })

  unfoldable pub from : Bytes → Option ValueStruct
  unfolding read_data
  from buffer = read_data default buffer
