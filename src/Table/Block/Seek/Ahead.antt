-- ===== src/Table/Block/Seek/Ahead.antt =====
-- The seeks over a block, against the list of the items that a walk from the same place reads.
use badger_rs.Table.Block.Seek.{seek_rewind}
use badger_rs.Common.{ℕ, zero, suc, ◌^◌, ◌<◌}
use badger_rs.Common.{◌≡◌, sym, ap, ◌∙◌, inl, inr, arith}
use badger_rs.Common.{Bool, Option, none, some}
use badger_rs.Common.{List, [], ◌∷◌}
use badger_rs.Common.{if◌then◌else◌, Bool-cases, Option-cases}
use badger_rs.Common.{length, All}
use badger_rs.Common.Keys.{Key, key_le}
use badger_rs.Common.Bytes.{ByteOrder}
use badger_rs.Table.Builder.{finish_block, empty_builder}
use badger_rs.Table.Block.{Item, BlockIterator, reset, next, drain}
use badger_rs.Table.Block
use badger_rs.Table.Block.Pair.{Pair, Fits}
use badger_rs.Table.Block.Scan.{add_run, items, drain-add_run}
use badger_rs.Table.Block.Seek.{origin, next_until, seek}

unfoldable pub first_of : (Item → Bool) → List Item → Option Item
first_of test [] = none
first_of test (item ∷ rest) = if test item then some item else first_of test rest

module _ ⦃bo : ByteOrder⦄ where
  -- A search stops at the first item of those that a drain would read.
  next_until-drain :
      (fuel : ℕ) (test : Item → Bool) (it : BlockIterator) (read : List Item) (last : BlockIterator)
      → drain fuel it ≡ some (read, last)
      → (it' : BlockIterator) × (next_until fuel test it ≡ some (first_of test read, it'))
  unfolding next_until drain first_of
  next_until-drain zero test it read last h = ground arith
  next_until-drain (suc fuel) test it read last h = elim (Option-cases (next it)) [
    | inl e ↦ ground arith
    | inr ((none, it1), e) ↦
        let nothing : read ≡ [] = ground arith in (it1, ground (arith, nothing))
    | inr ((some item, it1), e) ↦ elim (Option-cases (drain fuel it1)) [
      | inl d ↦ ground arith
      | inr ((rest, it2), d) ↦
          let more : read ≡ item ∷ rest = ground arith in
          let (it', answer) = next_until-drain fuel test it1 rest it2 d in
          elim (Bool-cases (test item)) [
            | inl passes ↦ (it1, ground (arith, more))
            | inr fails ↦ (it', ground (arith, more, answer))
          ]
    ]
  ]

  -- A seek from the origin over a block that a fresh builder makes from pairs that fit, in whatever
  -- state the iterator over the block is, ends without a panic: `seek` answers the first pair whose
  -- key is not below the given one, and `seek_rewind` the first pair of the block whose key is not
  -- above it, or nothing if there is none. The block has positions below 2^32.
  pub seek-add_run :
      (ps : List Pair) (key : Key) (it : BlockIterator)
      → All Fits ps
      → it.data_bytes ≡ (finish_block (add_run empty_builder ps)).buf
      → length it.data_bytes < 2 ^ 32
      → ((it' : BlockIterator) × (seek (suc (length ps)) key origin it
            ≡ some (first_of (λ item. key_le key item.0) (items ps), it')))
        × ((it' : BlockIterator) × (seek_rewind (suc (length ps)) key origin it
              ≡ some (first_of (λ item. key_le item.0 key) (items ps), it')))
  unfolding seek seek_rewind reset
  seek-add_run ps key it ok at fits =
      let (last, drained) = drain-add_run ps ok (rw (sym at) fits) in
      let same : reset it ≡ Block.new (finish_block (add_run empty_builder ps)).buf =
        ap Block.new at in
      let all_read = ap (drain (suc (length ps))) same ∙ drained in
      (
        next_until-drain (suc (length ps)) (λ item. key_le key item.0) (reset it) (items ps) last
            all_read,
        next_until-drain (suc (length ps)) (λ item. key_le item.0 key) (reset it) (items ps) last
            all_read,
      )
