-- ===== src/Value/RoundTrip.antt =====
-- A `ValueStruct` read back from the bytes that were written.
use badger_rs.Common.{◌≡◌, refl, arith}
use badger_rs.Common.{some}
use badger_rs.Common.{◌++◌, append_assoc}
use badger_rs.Common.{length, drop}
use badger_rs.Common.{length-append}
use badger_rs.Common.{drop-length}
use badger_rs.Common.Bytes.{Bytes, ByteOrder}
use badger_rs.Value.{ValueStruct, InRange, header_size, size, into, from}

module _ ⦃bo : ByteOrder⦄ where
  -- Encoding takes `size` bytes, the header's ten and the value.
  pub length-into : (v : ValueStruct) → length (into v) ≡ size v
  unfolding into size
  length-into v = simp (length-append, bo.length-write) (omega arith)

  drop-header :
      (a b c rest : Bytes)
      → length a ≡ 1
      → length b ≡ 1
      → length c ≡ 8
      → drop header_size (a ++ (b ++ (c ++ rest))) ≡ rest
  drop-header a b c rest ha hb hc =
      simp (← append_assoc) (drop-length 10 ((a ++ b) ++ c) rest (simp length-append (omega arith)))

  -- Decoding an encoded value whose fields are in range gives the value back.
  pub from-into : (v : ValueStruct) → InRange v → from (into v) ≡ some v
  unfolding from into
  from-into v h =
      let tail : Bytes = bo.write_uint 8 v.cas_counter ++ v.value in
      rw (bo.read-write 1 v.meta (bo.write_uint 1 v.user_meta ++ tail) h.meta) (
        rw (bo.read-write 1 v.user_meta tail h.user_meta) (
          rw (bo.read-write 8 v.cas_counter v.value h.cas_counter) (
            rw
              (drop-header _ _ _ v.value (bo.length-write 1 v.meta) (bo.length-write 1 v.user_meta)
                (bo.length-write 8 v.cas_counter))
              refl)))
