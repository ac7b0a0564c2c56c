-- ===== src/Manifest/File.antt =====
-- The manifest file (src/manifest.rs, `ManifestFile`): a header, and a record for each change set. The
-- protocol buffer of a change set and the checksum come from other crates; they are a parameter.
use badger_rs.Common.{ℕ, zero, suc, ◌+◌, ◌*◌, ◌^◌, ◌≤◌, ◌<◌}
use badger_rs.Common.{◌≡◌}
use badger_rs.Common.{Bool, not, ◌&&◌, Option, none, some}
use badger_rs.Common.{List, [], ◌∷◌, ◌++◌}
use badger_rs.Common.{ltb, ◌==◌, if◌then◌else◌, ◌>>=◌, ◌>>◌}
use badger_rs.Common.{u32, u64, sub_u64}
use badger_rs.Common.{length, take, drop}
use badger_rs.Common.Keys.{key_eq}
use badger_rs.Common.Bytes.{Bytes, ByteOrder, overwrite}
use badger_rs.Manifest.{
  Change, Manifest, Outcome, done, panic, exists_already, missing, apply_manifest_change_set,
  as_changes, is_done,
}
use badger_rs.Manifest
pub mod Replay
pub mod Append
pub mod Rewritten
pub mod Fuel

pub record Codec : Type 0 where
  pub to_vec : List Change → Bytes
  pub from_vec : Bytes → Option (List Change)
  pub crc32 : Bytes → ℕ
  pub from-to : (cs : List Change) → from_vec (to_vec cs) ≡ some cs
  pub crc32_fits : (bs : Bytes) → crc32 bs < 256 ^ 4

-- One `read` of a file: how many of the bytes asked for it gets, of those that are there. It may get
-- fewer than are there, but not when it asks for no more than the buffer of the file holds.
pub record FileRead : Type 0 where
  pub count : ℕ → ℕ → ℕ
  pub buffer_size : ℕ
  pub four : 4 ≤ buffer_size
  pub count_wanted : (wanted there : ℕ) → count wanted there ≤ wanted
  pub count_there : (wanted there : ℕ) → count wanted there ≤ there
  pub count_whole :
      (wanted there : ℕ) → wanted ≤ there → wanted ≤ buffer_size → count wanted there ≡ wanted

-- "bdgr"
abbrev pub magic_text : Bytes
magic_text = 98 ∷ 100 ∷ 103 ∷ 114 ∷ []

abbrev pub magic_version : ℕ
magic_version = 2

abbrev pub deletions_ratio : ℕ
deletions_ratio = 10

-- What a replay answers: a manifest with the offset up to which the file was read, an error, a panic,
-- or that the fuel ran out.
pub data Replayed : Type 0 where
  replayed : Manifest → ℕ → Replayed
  bad_magic unexpected_eof change_refused : Replayed
  crashed : Replayed
  out_of_fuel : Replayed

-- One record: the file ends before it (or its checksum is wrong), one read does not get all of its
-- payload, or it is whole.
pub data Reading : Type 0 where
  stop torn : Reading
  payload : Bytes → Bytes → Reading

-- `position` is where the open file writes next.
pub record ManifestFile : Type 0 where
  pub file : Bytes
  pub position : ℕ
  pub deletions_rewrite_threshold : ℕ
  pub manifest : Manifest

-- `add_changes` rewrites the file when the deletions outnumber the threshold and ten times the tables.
unfoldable pub rewrite_due : ℕ → Manifest → Bool
rewrite_due threshold m =
    ltb threshold m.deletions
    && ltb (u64 (deletions_ratio * sub_u64 m.creations m.deletions)) m.deletions

module _ ⦃bo : ByteOrder⦄ ⦃codec : Codec⦄ where
  unfoldable pub read_header : Bytes → Option (ℕ × (ℕ × Bytes))
  read_header bs = do
    (sz, r1) ← bo.read_uint 4 bs
    (crc, r2) ← bo.read_uint 4 r1
    some (sz, (crc, r2))

  module _ ⦃fr : FileRead⦄ where
    -- `assert_eq!(sz, fp.read(..))` fails when the read gets less: `torn`.
    unfoldable pub check_payload : Option (ℕ × (ℕ × Bytes)) → Reading
    check_payload none = stop
    check_payload (some (sz, (crc, r))) =
        if not (fr.count sz (length r) == sz)
        then torn
        else if crc == codec.crc32 (take sz r)
        then payload (take sz r) (drop sz r)
        else stop

    unfoldable pub read_record : Bytes → Reading
    unfolding check_payload read_header
    read_record bs = check_payload (read_header bs)

    unfoldable pub replay_loop : ℕ → Manifest → ℕ → Bytes → Replayed
    replay_loop zero m offset bs = out_of_fuel
    replay_loop (suc fuel) m offset bs = elim (read_record bs) [
      | stop ↦ replayed m offset
      | torn ↦ crashed
      | payload buffer rest ↦ elim (codec.from_vec buffer) [
        | none ↦ bad_magic
        | some changes ↦
            let out = apply_manifest_change_set m changes in
            elim (out.1) [
              | done ↦ replay_loop fuel out.0 (offset + 8 + length buffer) rest
              | panic ↦ crashed
              | _ ↦ change_refused
            ]
      ]
    ]

    -- Each record takes eight bytes at least, so the length of the file is fuel enough.
    unfoldable pub replay_manifest_file : Bytes → Replayed
    replay_manifest_file bs =
        if not (fr.count 4 (length bs) == 4)
        then bad_magic
        else if not (key_eq (take 4 bs) magic_text)
        then bad_magic
        else elim (bo.read_uint 4 (drop 4 bs)) [
          | none ↦ unexpected_eof
          | some (version, rest) ↦
              if version == magic_version
              then replay_loop (suc (length rest)) Manifest.new 8 rest
              else bad_magic
        ]

  unfoldable pub file_header : Bytes
  file_header = magic_text ++ bo.write_uint 4 magic_version

  -- The record of one change set: its length, its checksum and its bytes.
  unfoldable pub frame : List Change → Bytes
  frame cs =
      let buffer = codec.to_vec cs in
      bo.write_uint 4 (u32 (length buffer)) ++ (bo.write_uint 4 (codec.crc32 buffer) ++ buffer)

  -- The renamed file is opened anew, so the next write starts at position 0.
  unfoldable pub rewrite : ManifestFile → ManifestFile
  rewrite mf = record mf {
    file = file_header ++ frame (as_changes mf.manifest);
    position = 0;
    manifest = record mf.manifest { creations = length mf.manifest.tables; deletions = 0 };
  }

  -- `write_all` at the position of the open file.
  unfoldable pub append : List Change → ManifestFile → ManifestFile
  append changes mf = record mf {
    file = overwrite mf.position (frame changes) mf.file;
    position = mf.position + length (frame changes);
  }

  unfoldable pub add_changes : ManifestFile → List Change → ManifestFile × Outcome
  add_changes mf changes =
      let out = apply_manifest_change_set mf.manifest changes in
      let applied : ManifestFile = record mf { manifest = out.0 } in
      if not (is_done out.1)
      then (applied, out.1)
      else if rewrite_due mf.deletions_rewrite_threshold out.0
      then (rewrite applied, done)
      else (append changes applied, done)

  -- An existing file is replayed, cut behind its last whole record, and written from position 0 on.
  unfoldable pub reopen : ⦃fr : FileRead⦄ → ℕ → Bytes → Option ManifestFile
  reopen threshold bs = elim (replay_manifest_file bs) [
    | replayed m offset ↦ some (record {
      file = take offset bs;
      position = 0;
      deletions_rewrite_threshold = threshold;
      manifest = m;
    })
    | _ ↦ none
  ]
