-- ===== src/Manifest/File/Rewritten.antt =====
-- The manifest file behind a rewrite or a reopening: what it replays to, and what the next `add_changes`
-- does to it.
use badger_rs.Common.{◌+◌}
use badger_rs.Common.{◌≡◌, refl, ◌≢◌, inl, inr}
use badger_rs.Common.{false}
use badger_rs.Common.{List, ◌++◌, append_assoc}
use badger_rs.Common.{◌==◌, Bool-cases}
use badger_rs.Common.{u32}
use badger_rs.Common.{length, take, drop}
use badger_rs.Common.{take-length}
use badger_rs.Common.Keys.{key_eq, key_eq_iff}
use badger_rs.Common.Bytes.{Bytes, ByteOrder}
use badger_rs.Manifest.{Change, Manifest, done, apply_manifest_change_set}
use badger_rs.Manifest.File.{
  Codec, FileRead, bad_magic, magic_text, replay_manifest_file, frame, ManifestFile, rewrite_due,
  append, add_changes,
}

module _ ⦃bo : ByteOrder⦄ ⦃codec : Codec⦄ ⦃fr : FileRead⦄ where
  lost-header :
      (x rest : Bytes)
      → length x ≡ 4
      → x ≢ magic_text
      → replay_manifest_file (x ++ rest) ≡ bad_magic
  unfolding replay_manifest_file
  lost-header x rest n h =
      let first : take 4 (x ++ rest) ≡ x = take-length 4 x rest n in
      elim (Bool-cases (fr.count 4 (length (x ++ rest)) == 4)) [
        | inr short ↦ rw (replay_manifest_file, short) refl
        | inl long ↦
            rw (replay_manifest_file, long, first)
              (elim (Bool-cases (key_eq x magic_text)) [
                | inl e ↦ absurd (h ((key_eq_iff x magic_text).0 e))
                | inr e ↦ rw e refl
              ])
      ]

  -- A file that is written from position 0 on loses its header to the next change set, and no
  -- longer replays; the set applies, asks for no rewrite, and the length of its bytes does not
  -- spell the magic text.
  pub add_changes-bad_magic :
      (mf : ManifestFile) (cs : List Change)
      → mf.position ≡ 0
      → (apply_manifest_change_set mf.manifest cs).1 ≡ done
      → rewrite_due mf.deletions_rewrite_threshold (apply_manifest_change_set mf.manifest cs).0
        ≡ false
      → bo.write_uint 4 (u32 (length (codec.to_vec cs))) ≢ magic_text
      → ((add_changes mf cs).1 ≡ done)
        × (replay_manifest_file (add_changes mf cs).0.file ≡ bad_magic)
  unfolding add_changes append frame
  add_changes-bad_magic mf cs p d nr h =
      let b = codec.to_vec cs in
      let x = bo.write_uint 4 (u32 (length b)) in
      let y = bo.write_uint 4 (codec.crc32 b) in
      let old = drop (0 + length (frame cs)) mf.file in
      rw (d, nr, p)
        (
          refl,
          rw (append_assoc x (y ++ b) old)
              (lost-header x ((y ++ b) ++ old) (bo.length-write 4 (u32 (length b))) h),
        )
