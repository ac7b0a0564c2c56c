-- ===== src/Manifest/File/Append.antt =====
-- What `add_changes` leaves in the file: a log that replays to the manifest in memory, as long as the file
-- is written where it ends.
use badger_rs.Common.{ℕ, zero, suc, ◌+◌, ◌^◌, ◌≤◌, ◌<◌}
use badger_rs.Common.{◌≡◌, refl, sym, ap, ◌∙◌, arith}
use badger_rs.Common.{false}
use badger_rs.Common.{List, [], ◌∷◌, ◌++◌, append-nil, append_assoc}
use badger_rs.Common.{length, take, drop}
use badger_rs.Common.{length-append}
use badger_rs.Common.{take-length}
use badger_rs.Common.Bytes.{Bytes, ByteOrder, overwrite}
use badger_rs.Manifest.{Change, Manifest, new, done, apply_manifest_change_set}
use badger_rs.Manifest.File.{
  Codec, file_header, frame, ManifestFile, rewrite_due, append, add_changes,
}
use badger_rs.Manifest.File.Replay.{frames, apply_all, Replayable}

module _ ⦃bo : ByteOrder⦄ ⦃codec : Codec⦄ where
  -- The open file stands at its end, and its records, one for each change set, build the manifest.
  pub record FileAgrees (mf : ManifestFile) (css : List (List Change)) : Type 0 where
    pub file : mf.file ≡ file_header ++ frames css
    pub position : mf.position ≡ length mf.file
    pub replayable : Replayable new css
    pub manifest : mf.manifest ≡ apply_all new css

  frames-append :
      (css : List (List Change)) (cs : List Change)
      → frames (css ++ (cs ∷ [])) ≡ frames css ++ frame cs
  unfolding frames
  frames-append [] cs = append-nil (frame cs)
  frames-append (c ∷ css) cs =
      ap (λ t. frame c ++ t) (frames-append css cs)
      ∙ sym (append_assoc (frame c) (frames css) (frame cs))

  apply_all-append :
      (css : List (List Change)) (cs : List Change) (m : Manifest)
      → apply_all m (css ++ (cs ∷ [])) ≡ (apply_manifest_change_set (apply_all m css) cs).0
  unfolding apply_all
  apply_all-append [] cs m = refl
  apply_all-append (c ∷ css) cs m = apply_all-append css cs (apply_manifest_change_set m c).0

  Replayable-append :
      (css : List (List Change)) (cs : List Change) (m : Manifest)
      → Replayable m css
      → length (codec.to_vec cs) < 2 ^ 32
      → (apply_manifest_change_set (apply_all m css) cs).1 ≡ done
      → Replayable m (css ++ (cs ∷ []))
  unfolding apply_all
  Replayable-append [] cs m r h d = (h, (d, tt))
  Replayable-append (c ∷ css) cs m r h d =
      (r.0, (r.1.0, Replayable-append css cs (apply_manifest_change_set m c).0 r.1.1 h d))

  drop_beyond : (n : ℕ) (bs : Bytes) → length bs ≤ n → drop n bs ≡ []
  drop_beyond zero [] h = refl
  drop_beyond zero (b ∷ bs) h = absurd (omega arith)
  drop_beyond (suc n) [] h = refl
  drop_beyond (suc n) (b ∷ bs) h = drop_beyond n bs (omega arith)

  overwrite-end : (p : ℕ) (bs file : Bytes) → p ≡ length file → overwrite p bs file ≡ file ++ bs
  overwrite-end p bs file e =
      let all : take p file ≡ file =
        ap (take p) (sym (append-nil file)) ∙ take-length p file [] (sym e) in
      rw (all, drop_beyond (p + length bs) file (omega (arith, e)), append-nil bs) refl

  -- Adding a change set to an open file that agrees with its manifest, when the set applies, can be
  -- counted and asks for no rewrite, leaves a file that agrees with its manifest, with the set as
  -- one more record.
  pub add_changes-FileAgrees :
      (mf : ManifestFile) (css : List (List Change)) (cs : List Change)
      → FileAgrees mf css
      → (apply_manifest_change_set mf.manifest cs).1 ≡ done
      → rewrite_due mf.deletions_rewrite_threshold (apply_manifest_change_set mf.manifest cs).0
        ≡ false
      → length (codec.to_vec cs) < 2 ^ 32
      → ((add_changes mf cs).1 ≡ done) × FileAgrees (add_changes mf cs).0 (css ++ (cs ∷ []))
  unfolding add_changes append
  add_changes-FileAgrees mf css cs k d nr h =
      let file : overwrite mf.position (frame cs) mf.file ≡ mf.file ++ frame cs =
        overwrite-end mf.position (frame cs) mf.file k.position in
      rw (d, nr)
        (
          refl,
          record {
            file =
                file
                ∙ rw (k.file, frames-append css cs)
                    (append_assoc file_header (frames css) (frame cs));
            position = rw file (omega (arith, length-append mf.file (frame cs), k.position));
            replayable = Replayable-append css cs new k.replayable h (rw (← k.manifest) d);
            manifest = rw (apply_all-append css cs new, ← k.manifest) refl;
          },
        )
