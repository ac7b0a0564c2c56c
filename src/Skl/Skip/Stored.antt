-- ===== src/Skl/Skip/Stored.antt =====
-- What the skip list holds after a key was put into it.
use badger_rs.Common.{ℕ, zero, suc, ◌+◌, ◌≤◌}
use badger_rs.Common.{◌≡◌, refl, ap, ◌∙◌, ◌≢◌, inl, inr, arith}
use badger_rs.Common.{Option, none, some}
use badger_rs.Common.{List, [], ◌∷◌}
use badger_rs.Common.{◌>>=◌}
use badger_rs.Common.{length}
use badger_rs.Common.Keys.{Key}
use badger_rs.Common.Maps.{find}
use badger_rs.Value.{ValueStruct}
use badger_rs.Skl.Skip.{max_height, Node, SkipList}
use badger_rs.Skl.Skip.Order.{Has, IsList}
use badger_rs.Skl.Skip.Splice.{Gap, Hit}
use badger_rs.Skl.Skip.Insert.{search_levels, link_levels, store_value, add_node}
use badger_rs.Skl.Skip.Enter
use badger_rs.Skl.Skip.Enter.{entered, first_node, new_one, old_one, view}
use badger_rs.Skl.Skip.Entered.{new-Has}
use badger_rs.Skl.Skip.Rise.{Risen, link_levels-Risen}
use badger_rs.Skl.Skip.Value.{revalued, valued, store_value_lem, there, untouched, revalued-IsList}
use badger_rs.Skl.Skip.Put.{Gaps, met, places, search-Searched, entered-Climbing, link_base}

-- What `_put` does to the nodes, when the new node is at `x` and has its key and its value whole.
unfoldable pub put_nodes : ℕ → ℕ → SkipList → Key → ValueStruct → Option SkipList
put_nodes x height l key v = do
  searched ← search_levels l key l.height l.head ((l.head, 0) ∷ [])
  elim searched [
    | inl found_at ↦ store_value l found_at v
    | inr spots ↦ link_levels key x 0 height spots (add_node l x height key v)
  ]

-- The key has the value, and the other keys have what they had.
pub record Stored (l : SkipList) (key : Key) (v : ValueStruct) (run : Option SkipList)
    : Type 0 where
  pub l' : SkipList
  pub runs : run ≡ some l'
  pub ok : IsList l'
  pub o : ℕ
  pub node : Node
  pub has : Has l' o node
  pub same_key : node.key ≡ key
  pub same_value : node.value ≡ v
  pub back :
      (j : ℕ) (jd' : Node)
      → Has l' j jd'
      → jd'.key ≢ key
      → (jd : Node) × (Has l j jd × ((jd'.key ≡ jd.key) × (jd'.value ≡ jd.value)))
  pub forth :
      (j : ℕ) (jd : Node)
      → Has l j jd
      → jd.key ≢ key
      → (jd' : Node) × (Has l' j jd' × ((jd'.key ≡ jd.key) × (jd'.value ≡ jd.value)))

predecessor : (n : ℕ) → 1 ≤ n → (m : ℕ) × (n ≡ suc m)
predecessor zero h = absurd (omega arith)
predecessor (suc m) h = (m, refl)

module _ (l : SkipList) (ok : IsList l) (key : Key) (v : ValueStruct) (x height : ℕ)
    (fresh : find x l.nodes ≡ none) (x_proper : x ≢ 0) (low : 1 ≤ height)
    (high : height ≤ max_height) where
  over :
      (o level : ℕ)
      → search_levels l key l.height l.head ((l.head, 0) ∷ []) ≡ some (inl o)
      → Hit l ok key level o
      → Stored l key v (put_nodes x height l key v)
  unfolding put_nodes
  over o level e h =
      let differ : (jd : Node) → jd.key ≢ key → jd.key ≢ h.node.key = λ jd d f. d (f ∙ h.same) in
      record {
        l' = revalued l ok o h.node h.has v;
        runs = ground (arith, e, store_value_lem l ok o h.node h.has v);
        ok = revalued-IsList l ok o h.node h.has v;
        o = o;
        node = valued l ok o h.node h.has v;
        has = (there l ok o h.node h.has v, h.has.1);
        same_key = h.same;
        same_value = refl;
        back = λ j jd' has d. (
          jd',
          (((untouched l ok o h.node h.has v j jd' (differ jd' d)).0 has.0, has.1), (refl, refl)),
        );
        forth = λ j jd has d. (
          jd,
          (((untouched l ok o h.node h.has v j jd (differ jd d)).1 has.0, has.1), (refl, refl)),
        );
      }

  module _ (pre next : ℕ) (g : Gap l ok key 0 pre next) where
    abbrev now : SkipList
    now = entered l ok key v x height pre next fresh x_proper g

    -- What a list with the entered node holds, whatever its links above the base level.
    settle :
        (run : Option SkipList)
        → put_nodes x height l key v ≡ run
        → Risen key x run now
        → Stored l key v (put_nodes x height l key v)
    settle run e risen =
        let old = view l ok key v x height pre next fresh x_proper g in
        let keep = Enter.forth l ok key v x height pre next fresh x_proper g in
        let (it, (has, (k, w))) =
          risen.steady.forth x (first_node l ok key v x height pre next fresh x_proper g)
            (new-Has l ok key v x height pre next fresh x_proper g) in
        record {
          l' = risen.l';
          runs = e ∙ risen.runs;
          ok = risen.ok;
          o = x;
          node = it;
          has = has;
          same_key = k;
          same_value = w;
          back = λ j jd' there d.
              let (jd1, (has1, (k1, w1))) = risen.steady.back j jd' there in
              elim (old j jd1 has1.0) [
                | new_one a b ↦ absurd (d (k1 ∙ ap Node.key b))
                | old_one jd at kept ↦ (jd, ((at, has1.1), (k1 ∙ kept.key, w1 ∙ kept.value)))
              ];
          forth = λ j jd there d.
              let (jd1, (at, kept)) = keep j jd there.0 in
              let (jd', (has', (k1, w1))) = risen.steady.forth j jd1 (at, there.1) in
              (jd', (has', (k1 ∙ kept.key, w1 ∙ kept.value)));
        }

  enter :
      (ps : List (ℕ × ℕ))
      → search_levels l key l.height l.head ((l.head, 0) ∷ []) ≡ some (inr ps)
      → length ps ≡ suc l.height
      → Gaps l ok key 0 ps
      → Stored l key v (put_nodes x height l key v)
  unfolding put_nodes
  enter [] e size gaps = absurd (omega arith)
  enter ((pre, next) ∷ rest) e size gaps =
      let g = gaps 0 pre next refl (omega arith) in
      let above : Gaps l ok key 1 rest = λ k p q f lw.
        let z : 0 + suc k ≡ 1 + k = omega arith in
        rw z at (gaps (suc k) p q f (omega (arith, lw))) in
      let (count, h) = predecessor height low in
      settle pre next g (link_levels key x 1 count rest (now pre next g))
        (ground (arith, e, h, link_base l ok key v x height pre next fresh x_proper g count rest))
        (link_levels-Risen key x count 1 rest (now pre next g)
          (entered-Climbing l ok key v x height pre next fresh x_proper g rest low high above
            (omega (arith, size, ok.low)))
          (omega arith) (ground (arith, h)))

  pub put_nodes-Stored : Stored l key v (put_nodes x height l key v)
  put_nodes-Stored = elim (search-Searched l ok key) [
    | met o level e h ↦ over o level e h
    | places ps e size gaps ↦ enter ps e size gaps
  ]
