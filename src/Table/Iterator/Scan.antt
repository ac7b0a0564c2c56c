-- ===== src/Table/Iterator/Scan.antt =====
-- Going over a whole table forwards: what the builder put into the blocks is what `_next` answers.
use badger_rs.Common.{ℕ, zero, suc, ◌+◌, ◌-◌, ◌^◌, ◌<◌}
use badger_rs.Common.{◌≡◌, refl, ap, ◌∙◌, inl, inr, arith}
use badger_rs.Common.{false, Option, none, some}
use badger_rs.Common.{List, [], ◌∷◌, ◌++◌, map}
use badger_rs.Common.{Option-cases, ◌>>=◌}
use badger_rs.Common.{length, get_elem?, drop, All}
use badger_rs.Common.{length-append}
use badger_rs.Common.Keys.{Key}
use badger_rs.Common.Bytes.{Bytes, ByteOrder}
use badger_rs.Value.{InRange, into}
use badger_rs.Value.RoundTrip.{from-into}
use badger_rs.LevelHandler.Lookup.{IteratorItem}
use badger_rs.Table.Builder.{finish_block, empty_builder}
use badger_rs.Table.Block.{Item, BlockIterator, drain}
use badger_rs.Table.Block
use badger_rs.Table.Block.Pair.{Pair, Fits}
use badger_rs.Table.Block.Scan.{add_run, items, drain-add_run}
use badger_rs.Table.Iterator.{
  IteratorImpl, new, reset, get_or_set_bi, get_bi_by_bpos, into_item, next_in, _next,
}

abbrev pub concat : List (List Pair) → List Pair
concat [] = []
concat (ps ∷ pss) = ps ++ concat pss

drop-next :
    (i : ℕ) (xs : List Bytes) (y : Bytes) (ys : List Bytes)
    → drop i xs ≡ y ∷ ys
    → (get_elem? xs i ≡ some y) × (drop (suc i) xs ≡ ys)
drop-next zero [] y ys h = ground arith
drop-next (suc i) [] y ys h = ground arith
drop-next zero (x ∷ xs) y ys h = (ground arith, ground arith)
drop-next (suc i) (x ∷ xs) y ys h = drop-next i xs y ys h

module _ ⦃bo : ByteOrder⦄ where
  -- `while let Some(item) = itr.next()`, with the items on the way; fuel counts the rounds.
  unfoldable pub collect : ℕ → IteratorImpl → Option (List IteratorItem × IteratorImpl)
  collect zero m = none
  collect (suc fuel) m = do
    (read, m1) ← _next m
    elim read [
      | none ↦ some ([], m1)
      | some item ↦ do (rest, m2) ← collect fuel m1; some (item ∷ rest, m2)
    ]

  abbrev pub block_of : List Pair → Bytes
  block_of ps = (finish_block (add_run empty_builder ps)).buf

  -- A block that fits: its pairs do, their values are in range, and its bytes have `u32` positions.
  pub record BlockFits (ps : List Pair) : Type 0 where
    pub pairs_fit : All Fits ps
    pub in_range : All (λ p. InRange p.1) ps
    pub size_fits : length (block_of ps) < 2 ^ 32

  at_next : IteratorImpl → IteratorImpl
  at_next m = record m { bpos = suc m.bpos; bi = none }

  -- An ended block gives way to the next one.
  next_ended :
      (m : IteratorImpl) (it it1 : BlockIterator)
      → m.bi ≡ some it
      → m.bpos < length m.block_index
      → Block.next it ≡ some (none, it1)
      → _next m ≡ _next (at_next m)
  unfolding _next next_in get_or_set_bi at_next
  next_ended m it it1 b i e =
      let left : length m.block_index - m.bpos ≡ suc (length m.block_index - suc m.bpos) =
        omega arith in
      rw left (ground (arith, b, e))

  next_item :
      (m : IteratorImpl) (it it1 : BlockIterator) (p : Pair)
      → m.bi ≡ some it
      → m.bpos < length m.block_index
      → InRange p.1
      → Block.next it ≡ some (some (p.0, into p.1), it1)
      → _next m ≡ some (some p, record m { bi = some it1 })
  unfolding _next next_in get_or_set_bi into_item
  next_item m it it1 p b i r e =
      let left : length m.block_index - m.bpos ≡ suc (length m.block_index - suc m.bpos) =
        omega arith in
      rw left (ground (arith, b, e, from-into p.1 r))

  -- A block not yet begun is begun.
  next_begun :
      (m : IteratorImpl) (block : Bytes)
      → m.bi ≡ none
      → m.bpos < length m.block_index
      → get_elem? m.blocks m.bpos ≡ some block
      → _next m ≡ _next (record m { bi = some (Block.new block) })
  unfolding _next next_in get_or_set_bi get_bi_by_bpos
  next_begun m block b i e =
      let left : length m.block_index - m.bpos ≡ suc (length m.block_index - suc m.bpos) =
        omega arith in
      rw left (ground (arith, b, e))

  -- Two states with the same next step are collected alike.
  collect-same :
      (fuel : ℕ) (m m' : IteratorImpl)
      → _next m ≡ _next m'
      → collect (suc fuel) m ≡ collect (suc fuel) m'
  unfolding collect
  collect-same fuel m m' e = rw e refl

  collect_item :
      (fuel : ℕ) (m m1 m2 : IteratorImpl) (p : IteratorItem) (ps : List IteratorItem)
      → _next m ≡ some (some p, m1)
      → collect fuel m1 ≡ some (ps, m2)
      → collect (suc fuel) m ≡ some (p ∷ ps, m2)
  unfolding collect
  collect_item fuel m m1 m2 p ps e c = rw e (rw c refl)

  collect_end : (m : IteratorImpl) → length m.block_index - m.bpos ≡ 0 → collect 1 m ≡ some ([], m)
  unfolding collect _next next_in
  collect_end m e = rw e refl

  drain_nil :
      (n : ℕ) (it last : BlockIterator)
      → drain n it ≡ some ([], last)
      → (it1 : BlockIterator) × (Block.next it ≡ some (none, it1))
  unfolding drain
  drain_nil zero it last d = ground arith
  drain_nil (suc n) it last d = elim (Option-cases (Block.next it)) [
    | inl e ↦ ground arith
    | inr ((none, it1), e) ↦ (it1, e)
    | inr ((some item, it1), e) ↦ elim (Option-cases (drain n it1)) [
      | inl f ↦ ground arith
      | inr (more, f) ↦ ground arith
    ]
  ]

  drain_cons :
      (n : ℕ) (it last : BlockIterator) (item : Item) (rest : List Item)
      → drain n it ≡ some (item ∷ rest, last)
      → (k : ℕ) × ((it1 : BlockIterator) × ((Block.next it ≡ some (some item, it1))
            × (drain k it1 ≡ some (rest, last))))
  unfolding drain
  drain_cons zero it last item rest d = ground arith
  drain_cons (suc n) it last item rest d = elim (Option-cases (Block.next it)) [
    | inl e ↦ ground arith
    | inr ((none, it1), e) ↦ ground arith
    | inr ((some item', it1), e) ↦ elim (Option-cases (drain n it1)) [
      | inl f ↦ ground arith
      | inr ((rest', last'), f) ↦
          let same : item' ≡ item = ground arith in
          let same_rest : rest' ≡ rest = ground arith in
          let same_last : last' ≡ last = ground arith in (n, (it1, (ground arith, ground arith)))
    ]
  ]

  -- What is left of a block comes before what the blocks behind it give.
  collect_block :
      (ps : List Pair) (n fuel : ℕ) (m : IteratorImpl) (it last : BlockIterator)
      (out : List IteratorItem) (m2 : IteratorImpl)
      → All (λ p. InRange p.1) ps
      → m.bi ≡ some it
      → m.bpos < length m.block_index
      → drain n it ≡ some (items ps, last)
      → collect (suc fuel) (at_next m) ≡ some (out, m2)
      → collect (length ps + suc fuel) m ≡ some (ps ++ out, m2)
  collect_block [] n fuel m it last out m2 ok b i d c =
      let (it1, e) = drain_nil n it last d in
      let rounds : length {A = Pair} [] + suc fuel ≡ suc fuel = omega arith in
      ap (λ r. collect r m) rounds
      ∙ (collect-same fuel m (at_next m) (next_ended m it it1 b i e) ∙ c)
  collect_block (p ∷ ps) n fuel m it last out m2 ok b i d c =
      let (k, (it1, (e, d1))) = drain_cons n it last (p.0, into p.1) (items ps) d in
      let rounds : length (p ∷ ps) + suc fuel ≡ suc (length ps + suc fuel) = omega arith in
      ap (λ r. collect r m) rounds
      ∙ collect_item (length ps + suc fuel) m (record m { bi = some it1 }) m2 p (ps ++ out)
          (next_item m it it1 p b i ok.0 e)
          (collect_block ps k fuel (record m { bi = some it1 }) it1 last out m2 ok.1 refl i d1
            (unfold at_next in c))

  collect_all :
      (pss : List (List Pair)) (m : IteratorImpl)
      → All BlockFits pss
      → m.bi ≡ none
      → drop m.bpos m.blocks ≡ map block_of pss
      → length m.block_index ≡ m.bpos + length pss
      → (m2 : IteratorImpl) × (collect (suc (length (concat pss))) m ≡ some (concat pss, m2))
  collect_all [] m ok b d i = (m, collect_end m (rw i (omega arith)))
  collect_all (ps ∷ pss) m ok b d i =
      let (here, behind) = drop-next m.bpos m.blocks (block_of ps) (map block_of pss) d in
      let begun : IteratorImpl = record m { bi = some (Block.new (block_of ps)) } in
      let (last, drained) = drain-add_run ps ok.0.pairs_fit ok.0.size_fits in
      let more : m.bpos < length m.block_index = rw i (omega arith) in
      let (m2, e) =
        collect_all pss (at_next begun) ok.1 (unfold at_next in refl) (unfold at_next in behind)
          (unfold at_next in i ∙ omega arith) in
      let rounds : suc (length (ps ++ concat pss)) ≡ suc (length ps + length (concat pss)) =
        ap suc (length-append ps (concat pss)) in
      let start =
        collect-same (length ps + length (concat pss)) m begun
          (next_begun m (block_of ps) b more here) in
      let order : suc (length ps + length (concat pss)) ≡ length ps + suc (length (concat pss)) =
        omega arith in
      (
        m2,
        ap (λ r. collect r m) rounds
            ∙ (start
                ∙ (ap (λ r. collect r begun) order
                    ∙ collect_block ps (suc (length ps)) (length (concat pss)) begun
                        (Block.new (block_of ps)) last (concat pss) m2 ok.0.in_range refl more
                        drained e)),
      )

  -- An iterator over a table that goes forwards, and is fresh, answers the pairs that the builder
  -- put into the blocks, block after block and in order, and then ends, without a panic; the fuel
  -- is one more than the pairs. The pairs of each block fit, their values are in range, each block
  -- has positions below 2^32, and the block index has an entry for each block.
  pub scan-blocks :
      (pss : List (List Pair)) (block_index : List Key)
      → All BlockFits pss
      → length block_index ≡ length pss
      → (m : IteratorImpl) × ((m2 : IteratorImpl) × ((new (map block_of pss) block_index false
              ≡ some m)
            × (collect (suc (length (concat pss))) m ≡ some (concat pss, m2))))
  unfolding new reset
  scan-blocks pss block_index ok same =
      let m : IteratorImpl = record {
        blocks = map block_of pss;
        block_index = block_index;
        bpos = 0;
        bi = none;
        reversed = false;
      } in
      let (m2, e) = collect_all pss m ok refl refl (omega (arith, same)) in (m, (m2, (refl, e)))
