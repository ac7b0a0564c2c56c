-- ===== src/Table/Builder.antt =====
-- The table builder (src/table/builder.rs, `Builder`).
pub mod Prefix
use badger_rs.Common.{ℕ, ◌+◌, ◌-◌, ◌*◌, ◌^◌}
use badger_rs.Common.{Bool, true, false}
use badger_rs.Common.{List, [], ◌∷◌, ◌++◌}
use badger_rs.Common.{ltb, leb, ◌==◌, if◌then◌else◌}
use badger_rs.Common.{u16, u32, sub_u32}
use badger_rs.Common.{length, take, drop}
use badger_rs.Common.Keys.{Key}
use badger_rs.Common.Bytes.{Bytes, ByteOrder}
use badger_rs.Value.{ValueStruct, default, into}
use badger_rs.Value
use badger_rs.Table.Header.{Header, enc}

-- `Cursor<Vec<u8>>`: a write goes to the position and moves it.
pub record Cursor : Type 0 where
  pub bytes : Bytes
  pub position : ℕ

unfoldable pub write_all : Cursor → Bytes → Cursor
write_all c bs = record {
  bytes = take c.position c.bytes ++ (bs ++ drop (c.position + length bs) c.bytes);
  position = c.position + length bs;
}

pub record Builder : Type 0 where
  pub counter : ℕ
  pub buf : Bytes
  pub base_key : Key
  pub base_offset : ℕ
  pub restarts : List ℕ
  pub prev_offset : ℕ
  pub key_buf : Cursor
  pub key_count : ℕ

abbrev pub u32_max : ℕ
u32_max = 2 ^ 32 - 1

abbrev pub restart_interval : ℕ
restart_interval = 100

abbrev pub empty_builder : Builder
empty_builder = record {
  counter = 0;
  buf = [];
  base_key = [];
  base_offset = 0;
  restarts = [];
  prev_offset = u32_max;
  key_buf = record { bytes = []; position = 0 };
  key_count = 0;
}

unfoldable pub is_zero_bytes : Builder → Bool
is_zero_bytes b = length b.buf == 0

-- The suffix of the new key behind what it shares with `key`.
unfoldable pub key_diff : Key → Key → Key
key_diff [] key = []
key_diff (x ∷ xs) [] = x ∷ xs
key_diff (x ∷ xs) (y ∷ ys) = let rest = key_diff xs ys in if x == y then rest else x ∷ xs

-- `base_key.is_empty()`
unfoldable pub is_empty : Key → Bool
is_empty [] = true
is_empty (x ∷ xs) = false

unfoldable pub diff_key : Builder → Key → Key
diff_key b key = if is_empty b.base_key then key else key_diff key b.base_key

unfoldable pub next_base : Builder → Key → Key
next_base b key = if is_empty b.base_key then key else b.base_key

unfoldable pub header_of : Builder → Key → ValueStruct → Header
header_of b key v = record {
  p_len = u16 (length key - length (diff_key b key));
  k_len = u16 (length (diff_key b key));
  v_len = u16 (length v.value + Value.header_size);
  prev = b.prev_offset;
}

module _ ⦃bo : ByteOrder⦄ where
  -- Layout: header, diff_key, value.
  unfoldable pub pair_bytes : Builder → Key → ValueStruct → Bytes
  pair_bytes b key v = enc (header_of b key v) ++ (diff_key b key ++ into v)

  unfoldable pub add_helper : Builder → Key → ValueStruct → Builder
  add_helper b key v = record {
    counter = b.counter + 1;
    buf = b.buf ++ pair_bytes b key v;
    base_key = next_base b key;
    base_offset = b.base_offset;
    restarts = b.restarts;
    prev_offset = sub_u32 (u32 (length b.buf)) b.base_offset;
    key_buf = write_all (write_all b.key_buf (bo.write_uint 2 (u16 (length key)))) key;
    key_count = u32 (b.key_count + 1);
  }

  unfoldable pub finish_block : Builder → Builder
  finish_block b = add_helper b [] default

  unfoldable pub restart : Builder → Builder
  restart b = record b {
    restarts = b.restarts ++ (u32 (length b.buf) ∷ []);
    counter = 0;
    base_key = [];
    base_offset = u32 (length b.buf);
    prev_offset = u32_max;
  }

  unfoldable pub add : Builder → Key → ValueStruct → Builder
  add b key v =
      if leb restart_interval b.counter
      then add_helper (restart (finish_block b)) key v
      else add_helper b key v

  unfoldable pub write_u32s : List ℕ → Bytes
  write_u32s [] = []
  write_u32s (r ∷ rs) = bo.write_uint 4 r ++ write_u32s rs

  -- The block index and the builder with the last restart pushed.
  unfoldable pub block_index : Builder → Bytes × Builder
  block_index b =
      let restarts = b.restarts ++ (u32 (length b.buf) ∷ []) in
      (
        write_u32s restarts ++ bo.write_uint 4 (u32 (length restarts)),
        record b { restarts = restarts },
      )

unfoldable pub reached_capacity : Builder → ℕ → Bool
reached_capacity b cap = ltb cap (length b.buf + 8 + 4 * length b.restarts + 8)
