-- ===== src/Manifest/File/Fuel.antt =====
-- The replay of a manifest file terminates: each record takes eight bytes, so the length of the file is
-- fuel enough.
use badger_rs.Common.{ℕ, zero, suc, ◌+◌, ◌≤◌, ◌<◌}
use badger_rs.Common.{◌≡◌, refl, sym, ap, ◌∙◌, ◌≢◌, inl, inr, arith}
use badger_rs.Common.{Option, none, some}
use badger_rs.Common.{[], ◌∷◌}
use badger_rs.Common.{◌==◌, if◌then◌else◌, Bool-cases, Option-cases}
use badger_rs.Common.{none-some}
use badger_rs.Common.{length, take, drop}
use badger_rs.Common.{some_inj}
use badger_rs.Common.Keys.{key_eq}
use badger_rs.Common.Bytes.{Bytes, ByteOrder}
use badger_rs.Manifest.{
  Manifest, new, Outcome, done, panic, exists_already, missing, apply_manifest_change_set,
}
use badger_rs.Manifest.File.{
  change_refused, unexpected_eof, magic_text, magic_version, bad_magic, replay_manifest_file,
  crashed, Codec, FileRead, Reading, payload, stop, torn, check_payload, read_header, read_record,
  Replayed, out_of_fuel, replay_loop,
}

module _ ⦃bo : ByteOrder⦄ ⦃codec : Codec⦄ ⦃fr : FileRead⦄ where
  data Shorter (bs : Bytes) : Reading → Type 0 where
    at_end : Shorter bs stop
    cut : Shorter bs torn
    whole : (buffer rest : Bytes) → length rest < length bs → Shorter bs (payload buffer rest)

  length-drop : (n : ℕ) (bs : Bytes) → length (drop n bs) ≤ length bs
  length-drop zero bs = omega arith
  length-drop (suc n) [] = omega arith
  length-drop (suc n) (b ∷ bs) = omega (arith, length-drop n bs)

  check-Shorter :
      (bs : Bytes) (h : Option (ℕ × (ℕ × Bytes)))
      → ((sz crc : ℕ) (r : Bytes) → h ≡ some (sz, (crc, r)) → length r < length bs)
      → Shorter bs (check_payload h)
  unfolding check_payload
  check-Shorter bs none k = at_end
  check-Shorter bs (some (sz, (crc, r))) k = elim (Bool-cases (fr.count sz (length r) == sz)) [
    | inr e ↦ rw e cut
    | inl e ↦ elim (Bool-cases (crc == codec.crc32 (take sz r))) [
      | inl q ↦ rw (e, q) (whole _ _ (omega (arith, length-drop sz r, k sz crc r refl)))
      | inr q ↦ rw (e, q) at_end
    ]
  ]

  record-Shorter : (bs : Bytes) → Shorter bs (read_record bs)
  unfolding read_record read_header
  record-Shorter bs = check-Shorter bs (read_header bs) (behind bs)
    where
      behind :
          (bs : Bytes) (sz crc : ℕ) (r : Bytes)
          → read_header bs ≡ some (sz, (crc, r))
          → length r < length bs
      behind bs sz crc r e = elim (Option-cases (bo.read_uint 4 bs)) [
        | inl bad ↦ absurd (none-some _ (sym (rw (read_header, bad) refl) ∙ e))
        | inr ((n, r1), first) ↦ elim (Option-cases (bo.read_uint 4 r1)) [
          | inl bad ↦ absurd (none-some _ (sym (rw (read_header, first, bad) refl) ∙ e))
          | inr ((c, r2), second) ↦
              let same : some (n, (c, r2)) ≡ some (sz, (crc, r)) =
                sym (rw (read_header, first, second) refl) ∙ e in
              let rest : length r ≡ length r2 = ap (λ t. length t.1.1) (some_inj (sym same)) in
              omega (arith, bo.length-read 4 n bs r1 first, bo.length-read 4 c r1 r2 second, rest)
        ]
      ]

  -- The replay goes on behind a change set that applies, and ends at one that does not.
  applied :
      (o : Outcome) (next : Replayed)
      → next ≢ out_of_fuel
      → elim o as (λ _. Replayed) [ done ↦ next | panic ↦ crashed | _ ↦ change_refused ]
        ≢ out_of_fuel
  applied done next h = h
  applied panic next h = λ p. cc
  applied (exists_already i) next h = λ p. cc
  applied (missing i) next h = λ p. cc

  loop-terminates :
      (fuel : ℕ) (m : Manifest) (offset : ℕ) (bs : Bytes)
      → length bs < fuel
      → replay_loop fuel m offset bs ≢ out_of_fuel
  unfolding replay_loop
  loop-terminates zero m offset bs h = absurd (omega arith)
  loop-terminates (suc fuel) m offset bs h =
      step (read_record bs) refl (record-Shorter bs)
        (λ m1 off rest l. loop-terminates fuel m1 off rest l)
    where
      step :
          (r : Reading)
          → read_record bs ≡ r
          → Shorter bs r
          → ((m1 : Manifest) (off : ℕ) (rest : Bytes)
              → length rest < fuel
              → replay_loop fuel m1 off rest ≢ out_of_fuel)
          → replay_loop (suc fuel) m offset bs ≢ out_of_fuel
      step stop e s again = rw (replay_loop, e) (λ p. cc)
      step torn e s again = rw (replay_loop, e) (λ p. cc)
      step (payload buffer rest) e (whole _ _ l) again =
          elim (Option-cases (codec.from_vec buffer)) [
            | inl bad ↦ rw (replay_loop, e, bad) (λ p. cc)
            | inr (changes, good) ↦
                let out = apply_manifest_change_set m changes in
                rw (replay_loop, e, good)
                  (applied out.1 _
                    (again out.0 (offset + 8 + length buffer) rest (omega (arith, l, h))))
          ]

  -- Replaying a file terminates, whatever its bytes: the fuel given is enough.
  pub replay-terminates : (bs : Bytes) → replay_manifest_file bs ≢ out_of_fuel
  unfolding replay_manifest_file
  replay-terminates bs = elim (Bool-cases (fr.count 4 (length bs) == 4)) [
    | inr e ↦ rw e (λ p. cc)
    | inl e ↦ elim (Bool-cases (key_eq (take 4 bs) magic_text)) [
      | inr q ↦ rw (e, q) (λ p. cc)
      | inl q ↦ rw (e, q) (versions (bo.read_uint 4 (drop 4 bs)))
    ]
  ]
    where
      versions :
          (o : Option (ℕ × Bytes))
          → elim o as (λ _. Replayed) [
            | none ↦ unexpected_eof
            | some (version, rest) ↦
                if version == magic_version
                then replay_loop (suc (length rest)) new 8 rest
                else bad_magic
          ]
            ≢ out_of_fuel
      versions none = λ p. cc
      versions (some (version, rest)) = elim (Bool-cases (version == magic_version)) [
        | inl e ↦ rw e (loop-terminates (suc (length rest)) new 8 rest (omega arith))
        | inr e ↦ rw e (λ p. cc)
      ]
