-- ===== src/Table/Block/RoundTrip.antt =====
-- The block iterator reads back the pairs that the builder wrote.
use badger_rs.Common.{ℕ, ◌+◌, ◌^◌, ◌<◌}
use badger_rs.Common.{◌≡◌, refl, sym, ◌∙◌, arith}
use badger_rs.Common.{true, false, none, some}
use badger_rs.Common.{[], ◌++◌, append_assoc}
use badger_rs.Common.{leb}
use badger_rs.Common.{lt→ltb, eq→==, u32}
use badger_rs.Common.{length}
use badger_rs.Common.{length-append}
use badger_rs.Common.{slice, slice-at}
use badger_rs.Common.Keys.{Key}
use badger_rs.Common.Bytes.{Bytes, ByteOrder}
use badger_rs.Table.Header.{Header, header_size, is_dummy, from, enc, length-enc, from-enc}
use badger_rs.Table.Header
use badger_rs.Table.Builder.{is_empty}
use badger_rs.Table.Block.{BlockIterator, parse_kv, fill_base, next}

parse_kv_lem :
    (it : BlockIterator) (h : Header) (shared diff value : Bytes)
    → h.p_len + h.k_len < 2 ^ 16
    → slice 0 h.p_len it.base_key ≡ some shared
    → slice it.pos h.k_len it.data_bytes ≡ some diff
    → slice (it.pos + h.k_len) h.v_len it.data_bytes ≡ some value
    → it.pos + h.k_len + h.v_len < 2 ^ 32
    → parse_kv it h
      ≡ some (
        (shared ++ diff, value),
        record it { pos = it.pos + h.k_len + h.v_len; last_block = some (shared ++ diff, value) },
      )
unfolding parse_kv
parse_kv_lem it h shared diff value hk e1 e2 e3 fits =
    let low : u32 (it.pos + h.k_len) ≡ it.pos + h.k_len = omega arith in
    let high : u32 (it.pos + h.k_len + h.v_len) ≡ it.pos + h.k_len + h.v_len = omega arith in
    rw (lt→ltb _ _ hk) (rw e1 (rw e2 (rw low (rw e3 (rw high refl)))))

slice_empty : (n : ℕ) (xs : Bytes) → n ≡ 0 → slice 0 n xs ≡ some []
slice_empty n xs e = rw e (ground arith)

-- Where one pair stands in the data of a block.
module _ ⦃bo : ByteOrder⦄ (h : Header) (diff value : Bytes) (it : BlockIterator) (pre rest : Bytes)
    (at : it.data_bytes ≡ pre ++ (enc h ++ (diff ++ (value ++ rest)))) (here : it.pos ≡ length pre)
    (fits : length it.data_bytes < 2 ^ 32) (range : Header.InRange h)
    (k_len : h.k_len ≡ length diff) (v_len : h.v_len ≡ length value) where
  total :
      length it.data_bytes
      ≡ length pre + (header_size + (length diff + (length value + length rest)))
  total = rw at (simp (length-append, length-enc))

  header_at : slice it.pos header_size it.data_bytes ≡ some (enc h)
  header_at = slice-at _ _ _ pre (enc h) _ at here (sym (length-enc h))

  diff_at : slice (it.pos + header_size) h.k_len it.data_bytes ≡ some diff
  diff_at =
      slice-at _ _ _ (pre ++ enc h) diff (value ++ rest) (at ∙ sym (append_assoc pre (enc h) _))
        (omega (arith, length-append pre (enc h), length-enc h)) k_len

  value_at : slice (it.pos + header_size + h.k_len) h.v_len it.data_bytes ≡ some value
  value_at =
      slice-at _ _ _ (pre ++ (enc h ++ diff)) value rest (rw at (simp append_assoc))
        (simp length-append (omega (arith, length-enc h))) v_len

  -- The iterator past the header, and past the pair.
  abbrev pub past_header : BlockIterator
  past_header = record it { last_header = some h; pos = it.pos + header_size }

  abbrev pub past_pair : Key → Key → BlockIterator
  past_pair base key = record {
    data_bytes = it.data_bytes;
    pos = it.pos + header_size + h.k_len + h.v_len;
    base_key = base;
    last_header = some h;
    last_block = some (key, value);
  }

  pub next_dummy : is_dummy h ≡ true → next it ≡ some (none, past_header)
  unfolding next
  next_dummy dummy =
      let inside : leb (u32 (length it.data_bytes)) it.pos ≡ false = ground (arith, total) in
      let low : u32 (it.pos + header_size) ≡ it.pos + header_size = omega (arith, total) in
      rw inside (rw header_at (rw (from-enc h range) (rw dummy (rw low refl))))

  -- A pair that shares bytes with the base key.
  pub next_shared :
      (shared : Key)
      → is_dummy h ≡ false
      → is_empty it.base_key ≡ false
      → slice 0 h.p_len it.base_key ≡ some shared
      → h.p_len + h.k_len < 2 ^ 16
      → next it ≡ some (some (shared ++ diff, value), past_pair it.base_key (shared ++ diff))
  unfolding next fill_base
  next_shared shared dummy base e hk =
      let inside : leb (u32 (length it.data_bytes)) it.pos ≡ false = ground (arith, total) in
      let low : u32 (it.pos + header_size) ≡ it.pos + header_size = omega (arith, total) in
      rw inside (
        rw header_at (
          rw (from-enc h range) (
            rw dummy (
              rw low (
                rw base (
                  rw
                    (parse_kv_lem past_header h shared diff value hk e diff_at value_at
                      (omega (arith, total, k_len, v_len)))
                    refl))))))

  -- The first pair of a block sets the base key.
  pub next_first :
      is_dummy h ≡ false
      → it.base_key ≡ []
      → h.p_len ≡ 0
      → next it ≡ some (some (diff, value), past_pair diff diff)
  unfolding next fill_base is_empty
  next_first dummy base p0 =
      let inside : leb (u32 (length it.data_bytes)) it.pos ≡ false = ground (arith, total) in
      let low : u32 (it.pos + header_size) ≡ it.pos + header_size = omega (arith, total) in
      rw inside (
        rw header_at (
          rw (from-enc h range) (
            rw dummy (
              rw low (
                rw base (
                  rw (eq→== _ _ p0) (
                    rw diff_at (
                      rw
                        (parse_kv_lem (record past_header { base_key = diff }) h [] diff value
                          (omega (arith, range.k_len)) (slice_empty h.p_len diff p0) diff_at
                          value_at (omega (arith, total, k_len, v_len)))
                        refl))))))))
