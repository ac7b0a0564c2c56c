-- ===== src/Table/Block/Scan.antt =====
-- A whole block: what `add_helper` wrote is what `next` returns, pair after pair, up to the dummy pair
-- that `finish_block` puts at the end.
use badger_rs.Common.{suc, ◌^◌, ◌<◌}
use badger_rs.Common.{◌≡◌, refl, sym, ap, ◌∙◌, arith}
use badger_rs.Common.{none, some}
use badger_rs.Common.{List, [], ◌∷◌, ◌++◌, append-nil, append_assoc}
use badger_rs.Common.{length, All}
use badger_rs.Common.{length-append}
use badger_rs.Common.Keys.{Key}
use badger_rs.Common.Bytes.{Bytes, ByteOrder}
use badger_rs.Value.{ValueStruct, default, into, size}
use badger_rs.Value.RoundTrip.{length-into}
use badger_rs.Table.Header.{Header, header_size, is_dummy, enc, length-enc}
use badger_rs.Table.Header
use badger_rs.Table.Builder.{
  Builder, key_diff, diff_key, header_of, pair_bytes, add_helper, finish_block, empty_builder,
}
use badger_rs.Table.Block.{Item, BlockIterator, new, next, drain}
use badger_rs.Table.Block.RoundTrip.{next_dummy}
use badger_rs.Table.Block.Pair.{Pair, Fits, pair_step}

-- The builder after a run of `add_helper`, and the bytes that the run appended.
unfoldable pub add_run : ⦃bo : ByteOrder⦄ → Builder → List Pair → Builder
add_run b [] = b
add_run b ((k, v) ∷ ps) = add_run (add_helper b k v) ps

run_bytes : ⦃bo : ByteOrder⦄ → Builder → List Pair → Bytes
run_bytes b [] = []
run_bytes b ((k, v) ∷ ps) = pair_bytes b k v ++ run_bytes (add_helper b k v) ps

abbrev pub items : ⦃bo : ByteOrder⦄ → List Pair → List Item
items [] = []
items ((k, v) ∷ ps) = (k, into v) ∷ items ps

module _ ⦃bo : ByteOrder⦄ where
  buf-add_run : (b : Builder) (ps : List Pair) → (add_run b ps).buf ≡ b.buf ++ run_bytes b ps
  unfolding add_run run_bytes add_helper
  buf-add_run b [] = sym (append-nil b.buf)
  buf-add_run b ((k, v) ∷ ps) = buf-add_run (add_helper b k v) ps ∙ append_assoc b.buf _ _

  prev_in_range :
      (b : Builder) (k : Key) (v : ValueStruct) → (add_helper b k v).prev_offset < 2 ^ 32
  unfolding add_helper
  prev_in_range b k v = omega arith

  diff_key_dummy : (b : Builder) → diff_key b [] ≡ []
  unfolding diff_key key_diff
  diff_key_dummy b = ground arith

  header_of_dummy :
      (b : Builder)
      → header_of b [] default ≡ record { p_len = 0; k_len = 0; v_len = 10; prev = b.prev_offset }
  unfolding header_of
  header_of_dummy b = rw (diff_key_dummy b) refl

  -- The iterator stops at the dummy pair behind the last pair.
  next_at_end :
      (b : Builder) (it : BlockIterator) (pre : Bytes)
      → b.prev_offset < 2 ^ 32
      → it.data_bytes ≡ pre ++ pair_bytes b [] default
      → it.pos ≡ length pre
      → length it.data_bytes < 2 ^ 32
      → (it' : BlockIterator) × (next it ≡ some (none, it'))
  unfolding is_dummy size
  next_at_end b it pre prev at here fits =
      let h : Header = record { p_len = 0; k_len = 0; v_len = 10; prev = b.prev_offset } in
      let at' : it.data_bytes ≡ pre ++ (enc h ++ ([] ++ (into default ++ []))) =
        at ∙ unfold pair_bytes in rw (header_of_dummy b, diff_key_dummy b, append-nil) refl in
      let range : Header.InRange h = record {
        p_len = omega arith;
        k_len = omega arith;
        v_len = omega arith;
        prev = prev;
      } in
      (
        _,
        next_dummy h [] (into default) it pre [] at' here fits range refl
            (sym (length-into default)) refl,
      )

  -- The iterator meets the dummy pair behind the last pair.
  drain_run :
      (ps : List Pair) (b : Builder) (it : BlockIterator) (pre : Bytes)
      → All Fits ps
      → b.prev_offset < 2 ^ 32
      → it.data_bytes ≡ pre ++ (run_bytes b ps ++ pair_bytes (add_run b ps) [] default)
      → it.pos ≡ length pre
      → length it.data_bytes < 2 ^ 32
      → it.base_key ≡ b.base_key
      → (it' : BlockIterator) × (drain (suc (length ps)) it ≡ some (items ps, it'))
  unfolding drain add_run run_bytes
  drain_run [] b it pre ok prev at here fits base =
      let (it', e) = next_at_end b it pre prev at here fits in (it', rw e refl)
  drain_run ((k, v) ∷ ps) b it pre ok prev at here fits base =
      let tail =
        run_bytes (add_helper b k v) ps ++ pair_bytes (add_run (add_helper b k v) ps) [] default in
      let (it1, s) =
        pair_step b k v ok.0 prev it pre tail
          (at ∙ ap (λ t. pre ++ t) (append_assoc (pair_bytes b k v) _ _)) here fits base in
      let (it', e) =
        drain_run ps (add_helper b k v) it1 (pre ++ pair_bytes b k v) ok.1 (prev_in_range b k v)
          (s.same_data ∙ at ∙ simp append_assoc) (s.moved ∙ rw (here, length-append) refl)
          (rw s.same_data fits) (s.base ∙ unfold add_helper in refl) in
      (it', rw s.found (rw e refl))

  -- A block that a fresh builder makes from a run of pairs that fit, closed by `finish_block`, is
  -- read by the block iterator as exactly those pairs, in order; the iterator then stops, without a
  -- panic and within one step more than there are pairs.
  pub drain-add_run :
      (ps : List Pair)
      → All Fits ps
      → length (finish_block (add_run empty_builder ps)).buf < 2 ^ 32
      → (it : BlockIterator) × (drain
            (suc (length ps))
            (new (finish_block (add_run empty_builder ps)).buf)
          ≡ some (items ps, it))
  unfolding finish_block
  drain-add_run ps ok fits =
      drain_run ps empty_builder _ [] ok (omega arith)
        (unfold add_helper in
          ap (λ t. t ++ pair_bytes (add_run empty_builder ps) [] default)
            (buf-add_run empty_builder ps))
        refl fits refl
