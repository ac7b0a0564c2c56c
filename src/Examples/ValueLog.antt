-- ===== src/Examples/ValueLog.antt =====
-- Runs of the value log's entries and pointers.
use badger_rs.Common.{ℕ}
use badger_rs.Common.{◌≡◌, arith}
use badger_rs.Common.{some}
use badger_rs.Common.{[], ◌∷◌, ◌++◌}
use badger_rs.Common.Bytes.{Bytes}
use badger_rs.ValueLog.{Entry, ValuePointer, enc_entry, dec_entry, from_slice}
use badger_rs.ValueLog.RoundTrip.{InRange, dec-enc_entry, from_slice-enc_entry}
use badger_rs.Examples.BigEndian.{big_endian}
use badger_rs.Examples.ChangeCodec.{sum, sum_fits}

abbrev entry : Entry
entry = record {
  key = 1 ∷ 2 ∷ [];
  meta = 2;
  user_meta = 3;
  value = 9 ∷ [];
  cas_counter_check = 4;
  offset = 0;
  cas_counter = 5;
}

entry-InRange : InRange entry
entry-InRange = record {
  meta = omega arith;
  user_meta = omega arith;
  cas_counter = omega arith;
  cas_counter_check = omega arith;
  lengths = omega arith;
}

dec-enc_entry_example :
    (bs : Bytes) × (enc_entry sum entry ≡ some bs)
    × (dec_entry entry (bs ++ (7 ∷ [])) ≡ some (record entry { offset = 0 }, 7 ∷ []))
dec-enc_entry_example = dec-enc_entry sum sum_fits entry entry (7 ∷ []) entry-InRange

from_slice-enc_entry_example :
    (bs : Bytes) × (enc_entry sum entry ≡ some bs)
    × (from_slice 2 (8 ∷ 8 ∷ (bs ++ (7 ∷ [])))
        ≡ some (record entry { offset = 2; key = 0 ∷ 0 ∷ 1 ∷ 2 ∷ []; value = 0 ∷ 9 ∷ [] }))
from_slice-enc_entry_example =
    from_slice-enc_entry sum sum_fits entry (8 ∷ 8 ∷ []) (7 ∷ []) entry-InRange

abbrev pointer : ℕ → ℕ → ℕ → ValuePointer
pointer fid len offset = record { fid = fid; len = len; offset = offset }
