-- ===== src/Table/Header.antt =====
-- The header in front of each key-value pair of a block (src/table/builder.rs, `Header`).
use badger_rs.Common.{ℕ, ◌^◌, ◌<◌}
use badger_rs.Common.{◌≡◌, refl, sym, arith}
use badger_rs.Common.{Bool, ◌&&◌, Option, some}
use badger_rs.Common.{[], ◌++◌, append-nil, append_assoc}
use badger_rs.Common.{◌==◌, ◌>>=◌}
use badger_rs.Common.{length}
use badger_rs.Common.{length-append}
use badger_rs.Common.Bytes.{Bytes, ByteOrder}

pub record Header : Type 0 where
  pub p_len : ℕ
  pub k_len : ℕ
  pub v_len : ℕ
  pub prev : ℕ

abbrev pub header_size : ℕ
header_size = 10

pub record InRange (h : Header) : Type 0 where
  pub p_len : h.p_len < 256 ^ 2
  pub k_len : h.k_len < 256 ^ 2
  pub v_len : h.v_len < 256 ^ 2
  pub prev : h.prev < 256 ^ 4

unfoldable pub is_dummy : Header → Bool
is_dummy h = h.k_len == 0 && h.p_len == 0

module _ ⦃bo : ByteOrder⦄ where
  unfoldable pub enc : Header → Bytes
  enc h =
      bo.write_uint 2 h.p_len
      ++ (bo.write_uint 2 h.k_len ++ (bo.write_uint 2 h.v_len ++ bo.write_uint 4 h.prev))

  unfoldable pub dec : Bytes → Option (Header × Bytes)
  dec rd = do
    (p, r1) ← bo.read_uint 2 rd
    (k, r2) ← bo.read_uint 2 r1
    (v, r3) ← bo.read_uint 2 r2
    (b, r4) ← bo.read_uint 4 r3
    some (record { p_len = p; k_len = k; v_len = v; prev = b }, r4)

  -- `unwrap` of a failed read is the panic `none`.
  unfoldable pub from : Bytes → Option Header
  unfolding dec
  from buffer = do (h, _) ← dec buffer; some h

  pub length-enc : (h : Header) → length (enc h) ≡ header_size
  unfolding enc
  length-enc h = simp (length-append, bo.length-write) (omega arith)

  -- A header in range is read back, with what follows it left.
  pub dec-enc : (h : Header) (rest : Bytes) → InRange h → dec (enc h ++ rest) ≡ some (h, rest)
  unfolding dec enc
  dec-enc h rest r =
      let r3 : Bytes = bo.write_uint 4 h.prev ++ rest in
      let r2 : Bytes = bo.write_uint 2 h.v_len ++ r3 in
      let r1 : Bytes = bo.write_uint 2 h.k_len ++ r2 in
      simp append_assoc (
        rw (bo.read-write 2 h.p_len r1 r.p_len) (
          rw (bo.read-write 2 h.k_len r2 r.k_len) (
            rw (bo.read-write 2 h.v_len r3 r.v_len)
              (rw (bo.read-write 4 h.prev rest r.prev) refl))))

  -- Decoding an encoded block header whose fields are in range gives the header back.
  pub from-enc : (h : Header) → InRange h → from (enc h) ≡ some h
  unfolding from
  from-enc h r = rw (sym (append-nil (enc h))) (rw (dec-enc h [] r) refl)
