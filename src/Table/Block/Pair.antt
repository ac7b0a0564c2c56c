-- ===== src/Table/Block/Pair.antt =====
-- One pair in the data of a block: what `next` returns at it, and where it leaves the iterator.
use badger_rs.Common.{ℕ, ◌+◌, ◌^◌, ◌≤◌, ◌<◌}
use badger_rs.Common.{◌≡◌, refl, ap, ◌∙◌, inl, inr, arith}
use badger_rs.Common.{true, false, some}
use badger_rs.Common.{[], ◌∷◌, ◌++◌, append_assoc}
use badger_rs.Common.{Bool-cases}
use badger_rs.Common.{length, take}
use badger_rs.Common.{length-append}
use badger_rs.Common.{slice}
use badger_rs.Common.Keys.{Key}
use badger_rs.Common.Bytes.{Bytes, ByteOrder}
use badger_rs.Value.{ValueStruct, into, size}
use badger_rs.Value.RoundTrip.{length-into}
use badger_rs.Table.Header.{Header, header_size, is_dummy, enc, length-enc}
use badger_rs.Table.Header
use badger_rs.Table.Builder.{
  Builder, key_diff, is_empty, diff_key, next_base, header_of, pair_bytes,
}
use badger_rs.Table.Builder.Prefix.{shared, length-key_diff, shared-le, take-key_diff}
use badger_rs.Table.Block.{BlockIterator, next}
use badger_rs.Table.Block.RoundTrip.{next_shared, next_first}

abbrev pub Pair : Type 0
Pair = Key × ValueStruct

-- What a builder can store: a key that is not empty, and sizes that fit the header's `u16` fields.
pub record Fits (p : Pair) : Type 0 where
  pub key_there : is_empty p.0 ≡ false
  pub key_fits : length p.0 < 2 ^ 16
  pub value_fits : size p.1 < 2 ^ 16

is_empty→nil : (k : Key) → is_empty k ≡ true → k ≡ []
unfolding is_empty
is_empty→nil [] h = refl
is_empty→nil (x ∷ xs) h = ground arith

slice_prefix : (n : ℕ) (xs : Bytes) → n ≤ length xs → slice 0 n xs ≡ some (take n xs)
slice_prefix n xs h = ground arith

is_empty→pos : (k : Key) → is_empty k ≡ false → 0 < length k
unfolding is_empty
is_empty→pos [] h = ground arith
is_empty→pos (x ∷ xs) h = omega arith

module _ (b : Builder) (key : Key) (v : ValueStruct) (ok : Fits (key, v))
    (prev : b.prev_offset < 2 ^ 32) where
  abbrev header : Header
  header = header_of b key v

  length-diff_key : length (diff_key b key) ≤ length key
  unfolding diff_key
  length-diff_key = ground (arith, length-key_diff key b.base_key)

  header_lens :
      (header.p_len + header.k_len ≡ length key) × (header.k_len ≡ length (diff_key b key))
  unfolding header_of
  header_lens =
      (omega (arith, length-diff_key, ok.key_fits), omega (arith, length-diff_key, ok.key_fits))

  header-InRange : Header.InRange header
  unfolding header_of
  header-InRange = record {
    p_len = omega arith;
    k_len = omega arith;
    v_len = omega arith;
    prev = prev;
  }

  pub header_dummy : is_dummy header ≡ false
  unfolding is_dummy
  header_dummy = ground (arith, header_lens, is_empty→pos key ok.key_there)

  header_v_len : ⦃bo : ByteOrder⦄ → header.v_len ≡ length (into v)
  unfolding header_of size
  header_v_len = rw length-into (omega (arith, ok.value_fits))

-- The iterator after one pair, as the next pair needs it.
pub record Passed ⦃bo : ByteOrder⦄ (b : Builder) (key : Key) (v : ValueStruct)
    (it it' : BlockIterator) : Type 0 where
  pub found : next it ≡ some (some (key, into v), it')
  pub same_data : it'.data_bytes ≡ it.data_bytes
  pub moved : it'.pos ≡ it.pos + length (pair_bytes b key v)
  pub base : it'.base_key ≡ next_base b key

module _ ⦃bo : ByteOrder⦄ (b : Builder) (key : Key) (v : ValueStruct) (ok : Fits (key, v))
    (prev : b.prev_offset < 2 ^ 32) (it : BlockIterator) (pre rest : Bytes)
    (at : it.data_bytes ≡ pre ++ (pair_bytes b key v ++ rest)) (here : it.pos ≡ length pre)
    (fits : length it.data_bytes < 2 ^ 32) (base : it.base_key ≡ b.base_key) where
  at_parts :
      it.data_bytes ≡ pre ++ (enc (header_of b key v) ++ (diff_key b key ++ (into v ++ rest)))
  unfolding pair_bytes
  at_parts = at ∙ simp append_assoc

  length-pair :
      length (pair_bytes b key v)
      ≡ header_size + ((header_of b key v).k_len + (header_of b key v).v_len)
  unfolding pair_bytes
  length-pair =
      simp (length-append, length-enc)
        (omega (arith, (header_lens b key v ok prev).1, header_v_len b key v ok prev))

  lens :
      ((header_of b key v).p_len + (header_of b key v).k_len ≡ length key)
      × ((header_of b key v).k_len ≡ length (diff_key b key))
  lens = header_lens b key v ok prev

  module _ (first : is_empty b.base_key ≡ true) where
    whole_key : diff_key b key ≡ key
    unfolding diff_key
    whole_key = rw first refl

    step_first : (it' : BlockIterator) × Passed b key v it it'
    unfolding next_base
    step_first =
        let at' = rw whole_key at at_parts in
        let e = lens.1 ∙ ap length whole_key in
        let run =
          next_first (header_of b key v) key (into v) it pre rest at' here fits
            (header-InRange b key v ok prev) e (header_v_len b key v ok prev)
            (header_dummy b key v ok prev) (base ∙ is_empty→nil b.base_key first)
            (omega (arith, lens)) in
        (
          _,
          record {
            found = run;
            same_data = refl;
            moved = rw length-pair (omega arith);
            base = rw first refl;
          },
        )

  module _ (later : is_empty b.base_key ≡ false) where
    suffix : diff_key b key ≡ key_diff key b.base_key
    unfolding diff_key
    suffix = rw later refl

    rejoined : take (header_of b key v).p_len b.base_key ++ diff_key b key ≡ key
    rejoined =
        let e : (header_of b key v).p_len ≡ shared key b.base_key =
          omega (arith, lens.0, lens.1, ap length suffix) in
        rw (e, suffix) (take-key_diff key b.base_key)

    step_later : (it' : BlockIterator) × Passed b key v it it'
    unfolding next_base
    step_later =
        let p = (header_of b key v).p_len in
        let there : slice 0 p it.base_key ≡ some (take p b.base_key) = rw base (
          slice_prefix p b.base_key
            (omega (arith, lens.0, lens.1, ap length suffix, shared-le key b.base_key))) in
        let run =
          next_shared (header_of b key v) (diff_key b key) (into v) it pre rest at_parts here fits
            (header-InRange b key v ok prev) lens.1 (header_v_len b key v ok prev)
            (take p b.base_key) (header_dummy b key v ok prev) (rw base later) there
            (omega (arith, lens.0, ok.key_fits)) in
        (
          _,
          record {
            found = rw rejoined at run;
            same_data = refl;
            moved = rw length-pair (omega arith);
            base = rw later base;
          },
        )

  pub pair_step : (it' : BlockIterator) × Passed b key v it it'
  pair_step = elim (Bool-cases (is_empty b.base_key)) [
    | inl first ↦ step_first first
    | inr later ↦ step_later later
  ]
