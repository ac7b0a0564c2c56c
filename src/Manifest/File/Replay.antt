-- ===== src/Manifest/File/Replay.antt =====
-- Replaying a manifest file gives back what its records say, up to a tail that is cut short.
use badger_rs.Common.{ℕ, suc, ◌+◌, ◌-◌, ◌^◌, ◌≤◌, ◌<◌}
use badger_rs.Common.{◌≡◌, refl, ap, ◌∙◌, inl, inr, arith}
use badger_rs.Common.{true, false, none, some}
use badger_rs.Common.{List, [], ◌∷◌, ◌++◌, append_assoc}
use badger_rs.Common.{◌==◌, Bool-cases, Option-cases}
use badger_rs.Common.{eq→==, ==→eq, u32}
use badger_rs.Common.{length, take, All}
use badger_rs.Common.{length-append, take-append, take_past, drop-append, length-take}
use badger_rs.Common.Keys.{key_cmp}
use badger_rs.Common.Bytes.{Bytes, ByteOrder}
use badger_rs.Manifest.{Change, Manifest, new, done, apply_manifest_change_set}
use badger_rs.Manifest.File.{
  Codec, FileRead, magic_text, magic_version, replayed, crashed, payload, torn, read_header,
  check_payload, read_record, replay_loop, replay_manifest_file, file_header, frame,
}

module _ ⦃bo : ByteOrder⦄ ⦃codec : Codec⦄ where
  -- The records of a file, one for each change set.
  unfoldable pub frames : List (List Change) → Bytes
  frames [] = []
  frames (cs ∷ css) = frame cs ++ frames css

  unfoldable pub apply_all : Manifest → List (List Change) → Manifest
  apply_all m [] = m
  apply_all m (cs ∷ css) = apply_all (apply_manifest_change_set m cs).0 css

  -- Every change set applies, and its bytes can be counted in four bytes.
  abbrev pub Replayable : Manifest → List (List Change) → Type 0
  Replayable m [] = Unit
  Replayable m (cs ∷ css) =
      (length (codec.to_vec cs) < 2 ^ 32)
      × (((apply_manifest_change_set m cs).1 ≡ done)
          × Replayable (apply_manifest_change_set m cs).0 css)

  pub length-frame : (cs : List Change) → length (frame cs) ≡ 8 + length (codec.to_vec cs)
  unfolding frame
  length-frame cs =
      let b = codec.to_vec cs in
      omega (
        arith,
        length-append (bo.write_uint 4 (u32 (length b))) (bo.write_uint 4 (codec.crc32 b) ++ b),
        length-append (bo.write_uint 4 (codec.crc32 b)) b,
        bo.length-write 4 (u32 (length b)),
        bo.length-write 4 (codec.crc32 b),
      )

  length-frames : (css : List (List Change)) → length css + length css ≤ length (frames css)
  unfolding frames
  length-frames [] = omega arith
  length-frames (cs ∷ css) =
      omega (arith, length-append (frame cs) (frames css), length-frame cs, length-frames css)

  read_header-frame :
      (cs : List Change) (rest : Bytes)
      → length (codec.to_vec cs) < 2 ^ 32
      → read_header (frame cs ++ rest)
        ≡ some (length (codec.to_vec cs), (codec.crc32 (codec.to_vec cs), codec.to_vec cs ++ rest))
  unfolding read_header frame
  read_header-frame cs rest h =
      let b = codec.to_vec cs in
      let n : u32 (length b) ≡ length b = omega (arith, h) in
      rw
        (
          append_assoc (bo.write_uint 4 (u32 (length b))) (bo.write_uint 4 (codec.crc32 b) ++ b)
              rest,
          append_assoc (bo.write_uint 4 (codec.crc32 b)) b rest,
          n,
          bo.read-write 4 (length b) (bo.write_uint 4 (codec.crc32 b) ++ (b ++ rest))
              (omega (arith, h)),
          bo.read-write 4 (codec.crc32 b) (b ++ rest) (codec.crc32_fits b),
        )
        refl

module _ ⦃bo : ByteOrder⦄ ⦃codec : Codec⦄ ⦃fr : FileRead⦄ where
  -- The change set's bytes are no more than one read gets.
  abbrev pub Readable : List (List Change) → Type 0
  Readable css = All (λ cs. length (codec.to_vec cs) ≤ fr.buffer_size) css

  -- One read gets the payload of the record, with the rest of the file behind it.
  ReadWhole : List Change → Bytes → Type 0
  ReadWhole cs rest =
      fr.count (length (codec.to_vec cs)) (length (codec.to_vec cs ++ rest))
      ≡ length (codec.to_vec cs)

  small-ReadWhole :
      (cs : List Change) (rest : Bytes)
      → length (codec.to_vec cs) ≤ fr.buffer_size
      → ReadWhole cs rest
  unfolding ReadWhole
  small-ReadWhole cs rest h =
      fr.count_whole _ _ (omega (arith, length-append (codec.to_vec cs) rest)) h

  read_record-frame :
      (cs : List Change) (rest : Bytes)
      → length (codec.to_vec cs) < 2 ^ 32
      → ReadWhole cs rest
      → read_record (frame cs ++ rest) ≡ payload (codec.to_vec cs) rest
  unfolding read_record check_payload ReadWhole
  read_record-frame cs rest h got =
      let b = codec.to_vec cs in
      let whole : (fr.count (length b) (length (b ++ rest)) == length b) ≡ true = eq→== _ _ got in
      let sum : (codec.crc32 b == codec.crc32 b) ≡ true = eq→== _ _ refl in
      rw (read_header-frame cs rest h)
        (rw (whole, take-append b rest, drop-append b rest, sum) refl)

  read_record-short :
      (cs : List Change) (rest : Bytes)
      → length (codec.to_vec cs) < 2 ^ 32
      → (fr.count (length (codec.to_vec cs)) (length (codec.to_vec cs ++ rest))
          == length (codec.to_vec cs))
        ≡ false
      → read_record (frame cs ++ rest) ≡ torn
  unfolding read_record check_payload
  read_record-short cs rest h short = rw (read_header-frame cs rest h) (rw short refl)

  step-frame :
      (cs : List Change) (rest : Bytes) (fuel offset : ℕ) (m : Manifest)
      → length (codec.to_vec cs) < 2 ^ 32
      → ReadWhole cs rest
      → (apply_manifest_change_set m cs).1 ≡ done
      → replay_loop (suc fuel) m offset (frame cs ++ rest)
        ≡ replay_loop fuel (apply_manifest_change_set m cs).0 (offset + length (frame cs)) rest
  unfolding replay_loop
  step-frame cs rest fuel offset m h got d =
      let n : offset + 8 + length (codec.to_vec cs) ≡ offset + length (frame cs) =
        omega (arith, length-frame cs) in
      rw (replay_loop, read_record-frame cs rest h got, codec.from-to cs, d, n) refl

  loop-frames :
      (css : List (List Change)) (m : Manifest) (fuel offset : ℕ) (rest : Bytes)
      → Replayable m css
      → Readable css
      → replay_loop (length css + fuel) m offset (frames css ++ rest)
        ≡ replay_loop fuel (apply_all m css) (offset + length (frames css)) rest
  unfolding frames apply_all
  loop-frames [] m fuel offset rest r s =
      let none_more : 0 + fuel ≡ fuel = omega arith in
      let here : offset + 0 ≡ offset = omega arith in rw (none_more, here) refl
  loop-frames (cs ∷ css) m fuel offset rest r s =
      let n : offset + length (frame cs) + length (frames css)
          ≡ offset + length (frame cs ++ frames css) =
        omega (arith, length-append (frame cs) (frames css)) in
      let one : suc (length css) + fuel ≡ suc (length css + fuel) = omega arith in
      rw (append_assoc (frame cs) (frames css) rest, one)
        (step-frame cs (frames css ++ rest) (length css + fuel) offset m r.0
            (small-ReadWhole cs (frames css ++ rest) s.0) r.1.0
          ∙ loop-frames css (apply_manifest_change_set m cs).0 fuel _ rest r.1.1 s.1
          ∙ rw n refl)

  replay-header :
      (body : Bytes)
      → replay_manifest_file (file_header ++ body) ≡ replay_loop (suc (length body)) new 8 body
  unfolding replay_manifest_file file_header replay_loop key_cmp
  replay-header body =
      let v = bo.write_uint 4 magic_version in
      let long : (fr.count 4 (length (magic_text ++ (v ++ body))) == 4) ≡ true =
        eq→== _ _ (fr.count_whole _ _ (omega arith) fr.four) in
      let read : bo.read_uint 4 (v ++ body) ≡ some (magic_version, body) =
        bo.read-write 4 magic_version body (omega arith) in
      rw (replay_manifest_file, long, read) refl

  -- The fuel is enough for the records and one more step.
  enough :
      (css : List (List Change)) (rest : Bytes)
      → (fuel : ℕ) × (suc (length (frames css ++ rest)) ≡ length css + suc fuel)
  enough css rest = (
    length (frames css ++ rest) - length css,
    omega (arith, length-append (frames css) rest, length-frames css),
  )

  read_header_short : (tail : Bytes) → length tail < 8 → read_header tail ≡ none
  unfolding read_header
  read_header_short tail h = elim (Option-cases (bo.read_uint 4 tail)) [
    | inl e ↦ rw e refl
    | inr ((sz, r1), e) ↦
        let short : length r1 < 4 = omega (arith, bo.length-read 4 sz tail r1 e, h) in
        rw e (rw (bo.read-short 4 r1 short) refl)
  ]

  -- Replaying a header, whole records whose change sets apply and are no larger than one read of
  -- the file gets, and a tail of fewer than eight bytes gives the manifest that the change sets
  -- build, and the offset where the last whole record ends.
  pub replay-whole :
      (css : List (List Change)) (tail : Bytes)
      → Replayable new css
      → Readable css
      → length tail < 8
      → replay_manifest_file (file_header ++ (frames css ++ tail))
        ≡ replayed (apply_all new css) (8 + length (frames css))
  unfolding replay_loop read_record check_payload
  replay-whole css tail r s h =
      let (fuel, e) = enough css tail in
      replay-header (frames css ++ tail)
      ∙ rw e (
          loop-frames css new (suc fuel) 8 tail r s
          ∙ rw (replay_loop, read_header_short tail h) refl)

  cut_short : (wanted there : ℕ) → there < wanted → (fr.count wanted there == wanted) ≡ false
  cut_short wanted there h = elim (Bool-cases (fr.count wanted there == wanted)) [
    | inr e ↦ e
    | inl e ↦ absurd (omega (arith, ==→eq _ _ e, fr.count_there wanted there, h))
  ]

  cut-frame :
      (cs : List Change) (k : ℕ)
      → length (codec.to_vec cs) < 2 ^ 32
      → k < length (codec.to_vec cs)
      → read_record (take (8 + k) (frame cs)) ≡ torn
  unfolding read_record check_payload read_header frame
  cut-frame cs k h short =
      let b = codec.to_vec cs in
      let n : u32 (length b) ≡ length b = omega (arith, h) in
      let x = bo.write_uint 4 (length b) in
      let y = bo.write_uint 4 (codec.crc32 b) in
      let kept : take (8 + k) (x ++ (y ++ b)) ≡ x ++ (y ++ take k b) =
        ap (λ i. take i (x ++ (y ++ b))) (omega (arith, bo.length-write 4 (length b)))
        ∙ take_past x (4 + k) (y ++ b)
        ∙ ap (λ i. x ++ take i (y ++ b)) (omega (arith, bo.length-write 4 (codec.crc32 b)))
        ∙ ap (λ t. x ++ t) (take_past y k b) in
      let part : (fr.count (length b) (length (take k b)) == length b) ≡ false =
        cut_short (length b) (length (take k b))
          (omega (arith, short, length-take k b (omega (arith, short)))) in
      rw
        (
          n,
          kept,
          bo.read-write 4 (length b) (y ++ take k b) (omega (arith, h)),
          bo.read-write 4 (codec.crc32 b) (take k b) (codec.crc32_fits b),
          part,
        )
        refl

  -- Whatever the reads get, the replay does not come past the cut.
  loop-cut :
      (css : List (List Change)) (cs : List Change) (k : ℕ) (m : Manifest) (fuel offset : ℕ)
      → Replayable m css
      → length (codec.to_vec cs) < 2 ^ 32
      → k < length (codec.to_vec cs)
      → replay_loop (length css + suc fuel) m offset (frames css ++ take (8 + k) (frame cs))
        ≡ crashed
  unfolding frames replay_loop ReadWhole
  loop-cut [] cs k m fuel offset r h short =
      let one : 0 + suc fuel ≡ suc fuel = omega arith in
      rw one (rw (replay_loop, cut-frame cs k h short) refl)
  loop-cut (c ∷ css) cs k m fuel offset r h short =
      let rest = frames css ++ take (8 + k) (frame cs) in
      let b = codec.to_vec c in
      let one : suc (length css) + suc fuel ≡ suc (length css + suc fuel) = omega arith in
      rw (append_assoc (frame c) (frames css) (take (8 + k) (frame cs)), one)
        (elim (Bool-cases (fr.count (length b) (length (b ++ rest)) == length b)) [
          | inl e ↦
              step-frame c rest (length css + suc fuel) offset m r.0 (==→eq _ _ e) r.1.0
              ∙ loop-cut css cs k (apply_manifest_change_set m c).0 fuel _ r.1.1 h short
          | inr e ↦ rw (replay_loop, read_record-short c rest r.0 e) refl
        ])

  -- Replaying a file whose last record has its eight bytes of header but not its whole payload is a
  -- panic, not a truncation.
  pub replay-cut_payload :
      (css : List (List Change)) (cs : List Change) (k : ℕ)
      → Replayable new css
      → length (codec.to_vec cs) < 2 ^ 32
      → k < length (codec.to_vec cs)
      → replay_manifest_file (file_header ++ (frames css ++ take (8 + k) (frame cs))) ≡ crashed
  replay-cut_payload css cs k r h short =
      let (fuel, e) = enough css (take (8 + k) (frame cs)) in
      replay-header (frames css ++ take (8 + k) (frame cs))
      ∙ rw e (loop-cut css cs k new fuel 8 r h short)
