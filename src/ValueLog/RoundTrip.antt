-- ===== src/ValueLog/RoundTrip.antt =====
-- Reading an entry back: `dec_entry` gives it as it was, `from_slice` puts zeros in front.
use badger_rs.Common.{ℕ, ◌+◌, ◌^◌, ◌<◌}
use badger_rs.Common.{◌≡◌, refl, sym, ap, ◌∙◌, arith}
use badger_rs.Common.{some}
use badger_rs.Common.{[], ◌++◌, append-nil, append_assoc}
use badger_rs.Common.{u32}
use badger_rs.Common.{length, drop, replicate}
use badger_rs.Common.{length-append}
use badger_rs.Common.{drop-length, slice, slice-at}
use badger_rs.Common.Bytes.{Bytes, ByteOrder}
use badger_rs.ValueLog.{
  encoded_size, Entry, header_of, enc_header, dec_header, enc_entry, dec_entry, from_slice,
}
use badger_rs.ValueLog.Layout.{LengthFits, body, length-enc_header, enc_entry-layout}

-- The fields of the entry have their machine types.
pub record InRange (e : Entry) : Type 0 where
  pub meta : e.meta < 256 ^ 1
  pub user_meta : e.user_meta < 256 ^ 1
  pub cas_counter : e.cas_counter < 256 ^ 8
  pub cas_counter_check : e.cas_counter_check < 256 ^ 8
  pub lengths : LengthFits e

module _ ⦃bo : ByteOrder⦄ where
  pub dec-enc_header :
      (e : Entry) (rest : Bytes)
      → InRange e
      → dec_header (enc_header (header_of e) ++ rest) ≡ some (header_of e, rest)
  unfolding dec_header enc_header
  dec-enc_header e rest r =
      let h = header_of e in
      let r5 : Bytes = bo.write_uint 8 h.cas_counter_check ++ rest in
      let r4 : Bytes = bo.write_uint 8 h.cas_counter ++ r5 in
      let r3 : Bytes = bo.write_uint 1 h.user_mata ++ r4 in
      let r2 : Bytes = bo.write_uint 1 h.meta ++ r3 in
      let r1 : Bytes = bo.write_uint 4 h.v_len ++ r2 in
      simp append_assoc (
        rw
          (
            bo.read-write 4 h.k_len r1 (omega (arith, r.lengths)),
            bo.read-write 4 h.v_len r2 (omega (arith, r.lengths)),
            bo.read-write 1 h.meta r3 r.meta,
            bo.read-write 1 h.user_mata r4 r.user_meta,
            bo.read-write 8 h.cas_counter r5 r.cas_counter,
            bo.read-write 8 h.cas_counter_check rest r.cas_counter_check,
          )
          refl)

  module _ (crc32 : Bytes → ℕ) (crc32_fits : (bs : Bytes) → crc32 bs < 256 ^ 4) where
    abbrev pub bytes : Entry → Bytes
    bytes e = body e ++ bo.write_uint 4 (crc32 (body e))

    -- The parts of an encoded entry that stands behind `pre` and in front of `rest`.
    record Parts (e : Entry) (pre rest whole : Bytes) : Type 0 where
      head :
          slice (length pre) encoded_size whole ≡ some (enc_header (header_of e) ++ replicate 6 0)
      key : slice (length pre + encoded_size) (u32 (length e.key)) whole ≡ some e.key
      value :
          slice (length pre + encoded_size + u32 (length e.key)) (u32 (length e.value)) whole
          ≡ some e.value
      check :
          drop (length pre + encoded_size + u32 (length e.key) + u32 (length e.value)) whole
          ≡ bo.write_uint 4 (crc32 (body e)) ++ rest
      sum :
          slice (length pre + encoded_size + u32 (length e.key) + u32 (length e.value)) 4 whole
          ≡ some (bo.write_uint 4 (crc32 (body e)))

    parts : (e : Entry) (pre rest : Bytes) → InRange e → Parts e pre rest (pre ++ (bytes e ++ rest))
    parts e pre rest r =
        let head = enc_header (header_of e) ++ replicate 6 0 in
        let check = bo.write_uint 4 (crc32 (body e)) in
        let flat : pre ++ (bytes e ++ rest)
            ≡ pre ++ (head ++ (e.key ++ (e.value ++ (check ++ rest)))) =
          simp append_assoc refl in
        let n : length head ≡ encoded_size = omega (
          arith,
          length-append (enc_header (header_of e)) (replicate 6 0),
          length-enc_header (header_of e),
        ) in
        let k : u32 (length e.key) ≡ length e.key = omega (arith, r.lengths) in
        let v : u32 (length e.value) ≡ length e.value = omega (arith, r.lengths) in
        let regroup : pre ++ (bytes e ++ rest)
            ≡ (((pre ++ head) ++ e.key) ++ e.value) ++ (check ++ rest) =
          simp append_assoc refl in
        let at1 = length-append pre head in
        let at2 = length-append (pre ++ head) e.key in
        let at3 = length-append ((pre ++ head) ++ e.key) e.value in
        record {
          head = slice-at _ _ _ pre head _ flat refl (sym n);
          key =
              slice-at _ _ _ (pre ++ head) e.key (e.value ++ (check ++ rest))
                (simp append_assoc refl) (omega (arith, at1, n)) k;
          value =
              slice-at _ _ _ ((pre ++ head) ++ e.key) e.value (check ++ rest)
                (simp append_assoc refl) (omega (arith, at1, at2, n, k)) v;
          check =
              ap (drop _) regroup
              ∙ drop-length _ (((pre ++ head) ++ e.key) ++ e.value) (check ++ rest)
                  (omega (arith, at1, at2, at3, n, k, v));
          sum =
              slice-at _ _ _ (((pre ++ head) ++ e.key) ++ e.value) check rest
                (simp append_assoc refl) (omega (arith, at1, at2, at3, n, k, v))
                (sym (bo.length-write 4 _));
        }

    -- An entry of the value log whose fields and lengths are in range is encoded, and reading it
    -- back gives the entry, with the offset of the reader, and what follows it.
    pub dec-enc_entry :
        (e d : Entry) (rest : Bytes)
        → InRange e
        → (bs : Bytes) × (enc_entry crc32 e ≡ some bs)
          × (dec_entry d (bs ++ rest) ≡ some (record e { offset = d.offset }, rest))
    unfolding dec_entry
    dec-enc_entry e d rest r =
        let p = parts e [] rest r in
        (
          bytes e,
          enc_entry-layout crc32 e r.lengths,
          rw
              (
                dec_entry,
                p.head,
                dec-enc_header e (replicate 6 0) r,
                p.key,
                p.value,
                p.check,
                bo.read-write 4 (crc32 (body e)) rest (crc32_fits (body e)),
              )
              refl,
        )

    -- Reading an encoded entry whose fields are in range from the middle of a slice gives its
    -- fields, but the key and the value have as many zeros in front as they have bytes.
    pub from_slice-enc_entry :
        (e : Entry) (pre rest : Bytes)
        → InRange e
        → (bs : Bytes) × (enc_entry crc32 e ≡ some bs)
          × (from_slice (length pre) (pre ++ (bs ++ rest))
              ≡ some (record e {
                offset = length pre;
                key = replicate (length e.key) 0 ++ e.key;
                value = replicate (length e.value) 0 ++ e.value;
              }))
    unfolding from_slice
    from_slice-enc_entry e pre rest r =
        let p = parts e pre rest r in
        let check = bo.write_uint 4 (crc32 (body e)) in
        let k : u32 (length e.key) ≡ length e.key = omega (arith, r.lengths) in
        let v : u32 (length e.value) ≡ length e.value = omega (arith, r.lengths) in
        let read : bo.read_uint 4 check ≡ some (crc32 (body e), []) =
          rw (append-nil check) at (bo.read-write 4 (crc32 (body e)) [] (crc32_fits (body e))) in
        (
          bytes e,
          enc_entry-layout crc32 e r.lengths,
          rw
              (
                from_slice,
                p.head,
                dec-enc_header e (replicate 6 0) r,
                p.key,
                p.value,
                p.sum,
                read,
                k,
                v,
              )
              refl,
        )
