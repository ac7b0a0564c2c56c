-- ===== src/Examples/Table.antt =====
-- Runs of the table's blocks.
use badger_rs.Common.{◌≡◌, refl, arith}
use badger_rs.Common.{false, some}
use badger_rs.Common.{List, [], ◌∷◌, map}
use badger_rs.Common.{length, All}
use badger_rs.Common.Keys.{key_le}
use badger_rs.Value.{ValueStruct, into, from, size}
use badger_rs.Value.RoundTrip.{from-into}
use badger_rs.Table.Header.{Header, enc}
use badger_rs.Table.Builder.{
  add_helper, finish_block, empty_builder, header_of, diff_key, next_base, key_diff, is_empty,
  pair_bytes,
}
use badger_rs.Table.Block.{new, drain, BlockIterator}
use badger_rs.Table.Block.Pair.{Pair, Fits}
use badger_rs.Table.Block.Scan.{add_run, items, drain-add_run}
use badger_rs.Examples.BigEndian.{big_endian, write_be}
use badger_rs.Table.Block.Seek.{seek, seek_rewind, origin}
use badger_rs.Table.Block.Seek.Ahead.{first_of, seek-add_run}
use badger_rs.Table.Iterator.{IteratorImpl}
use badger_rs.Table.Iterator
use badger_rs.Table.Iterator.Scan.{BlockFits, block_of, collect, concat, scan-blocks}

abbrev small_value : ValueStruct
small_value = record { meta = 1; user_meta = 2; cas_counter = 3; value = 7 ∷ [] }

abbrev pairs : List Pair
pairs = (1 ∷ 2 ∷ [], small_value) ∷ (1 ∷ 3 ∷ [], small_value) ∷ []

from-into_example : from (into small_value) ≡ some small_value
from-into_example =
    from-into small_value
      (record { meta = omega arith; user_meta = omega arith; cas_counter = omega arith })

block_length : length (finish_block (add_run empty_builder pairs)).buf ≡ 65
unfolding finish_block add_run add_helper pair_bytes enc header_of diff_key next_base key_diff
    is_empty into write_be
block_length = refl

pairs_fit : All Fits pairs
unfolding is_empty size
pairs_fit = (
  record { key_there = refl; key_fits = omega arith; value_fits = omega arith },
  (record { key_there = refl; key_fits = omega arith; value_fits = omega arith }, tt),
)

drain-add_run_example :
    (it : BlockIterator) × (drain 3 (new (finish_block (add_run empty_builder pairs)).buf)
      ≡ some (items pairs, it))
drain-add_run_example = drain-add_run pairs pairs_fit (rw block_length (omega arith))

abbrev small_header : Header
small_header = record { p_len = 1; k_len = 2; v_len = 300; prev = 70000 }

abbrev written : BlockIterator
written = record (new (finish_block (add_run empty_builder pairs)).buf) { pos = 20 }

seek-add_run_example :
    ((it' : BlockIterator) × (seek 3 (1 ∷ 3 ∷ []) origin written
        ≡ some (first_of (λ item. key_le (1 ∷ 3 ∷ []) item.0) (items pairs), it')))
    × ((it' : BlockIterator) × (seek_rewind 3 (1 ∷ 3 ∷ []) origin written
          ≡ some (first_of (λ item. key_le item.0 (1 ∷ 3 ∷ [])) (items pairs), it')))
seek-add_run_example =
    seek-add_run pairs (1 ∷ 3 ∷ []) written pairs_fit refl (rw block_length (omega arith))

abbrev pairs_block : BlockFits pairs
pairs_block = record {
  pairs_fit = pairs_fit;
  in_range = (
    record { meta = omega arith; user_meta = omega arith; cas_counter = omega arith },
    (record { meta = omega arith; user_meta = omega arith; cas_counter = omega arith }, tt),
  );
  size_fits = rw block_length (omega arith);
}

scan-blocks_example :
    (m : IteratorImpl) × ((m2 : IteratorImpl) × ((Iterator.new
            (map block_of (pairs ∷ pairs ∷ []))
            ((1 ∷ 2 ∷ []) ∷ (1 ∷ 2 ∷ []) ∷ [])
            false
          ≡ some m)
        × (collect 5 m ≡ some (concat (pairs ∷ pairs ∷ []), m2))))
scan-blocks_example =
    scan-blocks (pairs ∷ pairs ∷ []) ((1 ∷ 2 ∷ []) ∷ (1 ∷ 2 ∷ []) ∷ [])
      (pairs_block, (pairs_block, tt)) refl
