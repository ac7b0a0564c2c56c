-- ===== src/ValueLog/Layout.antt =====
-- The bytes of an encoded entry: header, padding, key, value and checksum, one behind the other.
use badger_rs.Common.{ℕ, zero, suc, ◌+◌, ◌-◌, ◌^◌, ◌≤◌, ◌<◌}
use badger_rs.Common.{◌≡◌, refl, sym, ap, ◌∙◌, arith}
use badger_rs.Common.{true, some}
use badger_rs.Common.{[], ◌∷◌, ◌++◌, append-nil, append_assoc}
use badger_rs.Common.{ltb}
use badger_rs.Common.{lt→ltb, u32}
use badger_rs.Common.{length, take, drop, replicate}
use badger_rs.Common.{length-append, length-replicate}
use badger_rs.Common.{drop-length, take-length}
use badger_rs.Common.Bytes.{Bytes, ByteOrder}
use badger_rs.ValueLog.{Header, encoded_size, Entry, header_of, write_at, enc_header, enc_entry}

replicate_add : (a b x : ℕ) → replicate (a + b) x ≡ replicate a x ++ replicate b x
replicate_add zero b x = let n : 0 + b ≡ b = omega arith in rw n refl
replicate_add (suc a) b x =
    let n : suc a + b ≡ suc (a + b) = omega arith in rw n (ap (λ t. x ∷ t) (replicate_add a b x))

-- A write over a part of the same length replaces the part.
pub write_at-part :
    (start : ℕ) (bs buffer pre part rest : Bytes)
    → buffer ≡ pre ++ (part ++ rest)
    → start ≡ length pre
    → length part ≡ length bs
    → write_at start bs buffer ≡ pre ++ (bs ++ rest)
unfolding write_at
write_at-part start bs buffer pre part rest e s n =
    let whole : length buffer ≡ length pre + (length part + length rest) =
      rw e (omega (arith, length-append pre (part ++ rest), length-append part rest)) in
    let first : take start buffer ≡ pre = rw e (take-length start pre (part ++ rest) (sym s)) in
    let fits : take (length buffer - start) bs ≡ bs =
      take_enough (length buffer - start) bs (omega (arith, whole, s, n)) in
    let last : drop (start + length bs) buffer ≡ rest =
      rw (e, sym (append_assoc pre part rest))
        (drop-length (start + length bs) (pre ++ part) rest
          (omega (arith, length-append pre part, s, n))) in
    rw (first, fits, last) refl
  where
    take_enough : (k : ℕ) (xs : Bytes) → length xs ≤ k → take k xs ≡ xs
    take_enough zero [] h = refl
    take_enough zero (x ∷ xs) h = absurd (omega arith)
    take_enough (suc k) [] h = refl
    take_enough (suc k) (x ∷ xs) h = ap (λ t. x ∷ t) (take_enough k xs (omega arith))

abbrev zeros : ℕ → Bytes
zeros n = replicate n 0

-- The buffer after the writes of the header, the key and the value.
abbrev filled : Bytes → Bytes → Bytes → Bytes
filled head key value =
    write_at (32 + length key) value
      (write_at 32 key (write_at 0 head (zeros (32 + (length key + length value + 4)))))

filled_lem :
    (head key value : Bytes)
    → length head ≡ 26
    → filled head key value ≡ (((head ++ zeros 6) ++ key) ++ value) ++ zeros 4
filled_lem head key value h =
    let k = length key in
    let v = length value in
    let blank : zeros (32 + (k + v + 4))
        ≡ zeros 26 ++ (zeros 6 ++ (zeros k ++ (zeros v ++ zeros 4))) =
      ap zeros (omega arith)
      ∙ replicate_add 26 (6 + (k + (v + 4))) 0
      ∙ ap (λ t. zeros 26 ++ t)
          (replicate_add 6 (k + (v + 4)) 0
            ∙ ap (λ t. zeros 6 ++ t)
                (replicate_add k (v + 4) 0 ∙ ap (λ t. zeros k ++ t) (replicate_add v 4 0))) in
    let tail = zeros v ++ zeros 4 in
    let first : write_at 0 head (zeros (32 + (k + v + 4)))
        ≡ head ++ (zeros 6 ++ (zeros k ++ tail)) =
      write_at-part 0 head _ [] (zeros 26) (zeros 6 ++ (zeros k ++ tail)) blank refl (sym h) in
    let second : write_at 32 key (write_at 0 head (zeros (32 + (k + v + 4))))
        ≡ (head ++ zeros 6) ++ (key ++ tail) =
      write_at-part 32 key _ (head ++ zeros 6) (zeros k) tail
        (first ∙ sym (append_assoc head (zeros 6) (zeros k ++ tail)))
        (omega (arith, length-append head (zeros 6), h)) (length-replicate k 0) in
    write_at-part (32 + k) value _ ((head ++ zeros 6) ++ key) (zeros v) (zeros 4)
      (second ∙ sym (append_assoc (head ++ zeros 6) key tail))
      (omega (arith, length-append (head ++ zeros 6) key, length-append head (zeros 6), h))
      (length-replicate v 0)
    ∙ sym (append_assoc ((head ++ zeros 6) ++ key) value (zeros 4))

-- The entry's key and value are short enough for one record.
abbrev pub LengthFits : Entry → Type 0
LengthFits e = length e.key + length e.value + 4 < 2 ^ 32

module _ ⦃bo : ByteOrder⦄ where
  -- Everything in front of the checksum.
  abbrev pub body : Entry → Bytes
  body e = enc_header (header_of e) ++ (replicate 6 0 ++ (e.key ++ e.value))

  pub length-enc_header : (h : Header) → length (enc_header h) ≡ 26
  unfolding enc_header
  length-enc_header h = simp (length-append, bo.length-write) (omega arith)

  pub length-body : (e : Entry) → length (body e) ≡ encoded_size + length e.key + length e.value
  length-body e = omega (
    arith,
    length-append (enc_header (header_of e)) (replicate 6 0 ++ (e.key ++ e.value)),
    length-append {A = ℕ} (replicate 6 0) (e.key ++ e.value),
    length-append e.key e.value,
    length-enc_header (header_of e),
  )

  -- An entry whose lengths fit is encoded as its header, six zeros, its key, its value and the
  -- checksum of these.
  pub enc_entry-layout :
      (crc32 : Bytes → ℕ) (e : Entry)
      → LengthFits e
      → enc_entry crc32 e ≡ some (body e ++ bo.write_uint 4 (crc32 (body e)))
  unfolding enc_entry
  enc_entry-layout crc32 e f =
      let k = length e.key in
      let v = length e.value in
      let head = enc_header (header_of e) in
      let whole = ((head ++ zeros 6) ++ e.key) ++ e.value in
      let buffer = filled head e.key e.value in
      let n : u32 k ≡ k = omega (arith, f) in
      let m : u32 v ≡ v = omega (arith, f) in
      let fits : ltb (u32 k + u32 v + 4) (2 ^ 32) ≡ true = lt→ltb _ _ (omega (arith, f, n, m)) in
      let B : ℕ → ℕ → Bytes = λ a b.
        write_at (32 + a) e.value
          (write_at 32 e.key (write_at 0 head (zeros (32 + (a + b + 4))))) in
      let F : ℕ → ℕ → Bytes = λ a b.
        write_at (32 + a + b) (bo.write_uint 4 (crc32 (take (32 + a + b) (B a b)))) (B a b) in
      let there : buffer ≡ whole ++ zeros 4 =
        filled_lem head e.key e.value (length-enc_header (header_of e)) in
      let regroup : whole ≡ body e =
        append_assoc (head ++ zeros 6) e.key e.value
        ∙ append_assoc head (zeros 6) (e.key ++ e.value) in
      let long : length whole ≡ 32 + k + v = ap length regroup ∙ length-body e in
      let front : take (32 + k + v) buffer ≡ body e =
        ap (take (32 + k + v)) there ∙ take-length (32 + k + v) whole (zeros 4) long ∙ regroup in
      let check = bo.write_uint 4 (crc32 (body e)) in
      let last : write_at (32 + k + v) check buffer ≡ body e ++ check =
        write_at-part (32 + k + v) check buffer whole (zeros 4) []
          (there ∙ ap (λ t. whole ++ t) (sym (append-nil (zeros 4)))) (sym long)
          (sym (bo.length-write 4 (crc32 (body e))))
        ∙ rw (regroup, append-nil check) refl in
      let done : F k v ≡ body e ++ check = rw front last in
      rw fits (ap (λ a. some (F a (u32 v))) n ∙ ap (λ b. some (F k b)) m ∙ ap some done)
