-- ===== src/Skl/Skip/Put.antt =====
-- Putting a key into the skip list: the search for its places, and the first link.
use badger_rs.Common.{ℕ, zero, suc, ◌+◌, ◌≤◌, ◌<◌}
use badger_rs.Common.{◌≡◌, refl, sym, ap, ◌∙◌, ◌≢◌, ◌⊎◌, inl, inr, arith}
use badger_rs.Common.{true, false, Option, none, some}
use badger_rs.Common.{List, [], ◌∷◌}
use badger_rs.Common.{◌==◌}
use badger_rs.Common.{none-some, eq→==, ==→eq}
use badger_rs.Common.{length, get_elem?, set, replicate}
use badger_rs.Common.{some_inj}
use badger_rs.Common.Keys.{Key}
use badger_rs.Common.Maps.{find, find-put}
use badger_rs.Value.{ValueStruct}
use badger_rs.Merge.Invariant.{get-set}
use badger_rs.Skl.Skip.{max_height, Node, SkipList}
use badger_rs.Skl.Skip.Order.{ahead, IsList}
use badger_rs.Skl.Skip.Splice.{Gap, Hit, hit, gap, Gap-apart, find_splice-Spliced}
use badger_rs.Skl.Skip.Insert.{place_at, link_levels, search_levels, add_node}
use badger_rs.Skl.Skip.Link.{relinked, set_next_lem}
use badger_rs.Skl.Skip.Enter.{replicate_zero, entered, first_node, new_one, old_one, view, forth}
use badger_rs.Skl.Skip.Entered.{entered-IsList, new-Has}
use badger_rs.Skl.Skip.Climb.{Climbing}
use badger_rs.Skl.Skip.Rise.{cas_lem}

module _ (l : SkipList) (ok : IsList l) (key : Key) where
  -- The places found, from a level on.
  abbrev pub Gaps : ℕ → List (ℕ × ℕ) → Type 0
  Gaps from places =
      (k p q : ℕ)
      → get_elem? places k ≡ some (p, q)
      → from + k < max_height
      → Gap l ok key (from + k) p q

  pub data Searched (size : ℕ) (run : Option (ℕ ⊎ List (ℕ × ℕ))) : Type 0 where
    met : (o level : ℕ) → run ≡ some (inl o) → Hit l ok key level o → Searched size run
    places :
        (ps : List (ℕ × ℕ)) → run ≡ some (inr ps) → length ps ≡ size → Gaps 0 ps → Searched size run

  first_place :
      (i p q : ℕ) (ps : List (ℕ × ℕ)) → Gap l ok key i p q → Gaps (suc i) ps → Gaps i ((p, q) ∷ ps)
  first_place i p q ps h g zero a b f lw =
      let e : (p, q) ≡ (a, b) = some_inj f in
      let pa : p ≡ a = ap (λ (t : ℕ × ℕ). t.0) e in
      let qb : q ≡ b = ap (λ (t : ℕ × ℕ). t.1) e in
      let z : i + 0 ≡ i = omega arith in rw (z, ← pa, ← qb) h
  first_place i p q ps h g (suc k) a b f lw =
      let z : i + suc k ≡ suc i + k = omega arith in rw z (g k a b f (omega (arith, lw)))

  pub search_levels-Searched :
      (count cur : ℕ) (cd : Node) (ps : List (ℕ × ℕ))
      → find cur l.nodes ≡ some cd
      → ahead l cur cd key ≡ true
      → count ≤ max_height
      → Gaps count ps
      → Searched (count + length ps) (search_levels l key count cur ps)
  unfolding search_levels
  search_levels-Searched zero cur cd ps at before low g = places ps refl (omega arith) g
  search_levels-Searched (suc i) cur cd ps at before low g =
      elim (find_splice-Spliced l ok key i cur cd (omega arith) at before) [
        | hit o e h ↦ met o i (ground (arith, e, eq→== o o refl)) h
        | gap p q e h ↦
            let apart = Gap-apart l ok key i p q h in
            elim (search_levels-Searched i p h.node ((p, q) ∷ ps) h.there h.before (omega arith)
              (first_place i p q ps h g)) [
                | met o lv f r ↦ met o lv (ground (arith, e, apart, f)) r
                | places qs f size r ↦
                    places qs (ground (arith, e, apart, f)) (omega (arith, size)) r
              ]
      ]

  -- No link of the head is as high as the list.
  top : Gaps l.height ((l.head, 0) ∷ [])
  top zero p q e lw =
      let (hd, at) = ok.head_there in
      let same : (l.head, 0) ≡ (p, q) = some_inj e in
      let pa : l.head ≡ p = ap (λ (t : ℕ × ℕ). t.0) same in
      let qb : 0 ≡ q = ap (λ (t : ℕ × ℕ). t.1) same in
      let z : l.height + 0 ≡ l.height = omega arith in
      rw (z, ← pa, ← qb)
        (record {
          node = hd;
          there = at;
          before = ground (arith, eq→== l.head l.head refl);
          link = ok.above hd l.height at (omega arith) (omega (arith, lw));
          after = λ h. absurd (h refl);
        })
  top (suc k) p q e lw = absurd (none-some (p, q) e)

  -- The search starts at the head, which is also the place on the level above all.
  pub search-Searched :
      Searched (suc l.height) (search_levels l key l.height l.head ((l.head, 0) ∷ []))
  search-Searched =
      let (hd, at) = ok.head_there in
      let start : ahead l l.head hd key ≡ true = ground (arith, eq→== l.head l.head refl) in
      let size : l.height + length {A = ℕ × ℕ} ((l.head, 0) ∷ []) ≡ suc l.height = omega arith in
      rw size at (search_levels-Searched l.height l.head hd ((l.head, 0) ∷ []) at start ok.high top)

module _ (l : SkipList) (ok : IsList l) (key : Key) (v : ValueStruct) (x height pre next : ℕ)
    (fresh : find x l.nodes ≡ none) (x_proper : x ≢ 0) (g : Gap l ok key 0 pre next) where
  abbrev now : SkipList
  now = entered l ok key v x height pre next fresh x_proper g

  -- A gap above the base level stays one.
  Gap-entered :
      (ok' : IsList now) (lv p q : ℕ) → 1 ≤ lv → Gap l ok key lv p q → Gap now ok' key lv p q
  Gap-entered ok' lv p q up h =
      let keep = forth l ok key v x height pre next fresh x_proper g in
      let (pd, (at, kept)) = keep p h.node h.there in
      record {
        node = pd;
        there = at;
        before = rw kept.key h.before;
        link = kept.tower lv ∙ ground (arith, h.link, up);
        after = λ some_q.
            let (nn, (has, lt)) = h.after some_q in
            let (nn', (at', k)) = keep q nn has.0 in (nn', ((at', has.1), rw k.key lt));
      }

  -- Nothing above the base level leads to the new node.
  not_linked :
      (j : ℕ) (jd : Node) (lv : ℕ)
      → find j now.nodes ≡ some jd
      → 1 ≤ lv
      → get_elem? jd.tower lv ≢ some x
  not_linked j jd lv at up link =
      elim (view l ok key v x height pre next fresh x_proper g j jd at) [
        | new_one a b ↦
            let tower : get_elem? (set (replicate max_height 0) 0 next) lv ≡ some x =
              sym (ap (λ t. get_elem? (Node.tower t) lv) b) ∙ link in
            x_proper (
              replicate_zero max_height lv x
                (ground (arith, tower, up, get-set (replicate max_height 0) 0 lv next)))
        | old_one jd0 e kept ↦
            let (md, (has, _)) =
              ok.links j jd0 lv x e (ground (arith, kept.tower lv, link, up)) x_proper in
            none-some md (sym fresh ∙ has.0)
      ]

  pub entered-Climbing :
      (rest : List (ℕ × ℕ))
      → 1 ≤ height
      → height ≤ max_height
      → Gaps l ok key 1 rest
      → 1 ≤ length rest
      → Climbing key x 1 rest now
  entered-Climbing rest low high gaps some_rest =
      let ok' = entered-IsList l ok key v x height pre next fresh x_proper g low high in
      record {
        ok = ok';
        it = first_node l ok key v x height pre next fresh x_proper g;
        has = new-Has l ok key v x height pre next fresh x_proper g;
        same = refl;
        unlinked = not_linked;
        gaps = λ k p q e lw. Gap-entered ok' (1 + k) p q (omega arith) (gaps k p q e lw);
        searched = omega (arith, some_rest);
      }

  -- The first round of the loop is the entry on the base level.
  pub link_base :
      (count : ℕ) (rest : List (ℕ × ℕ))
      → link_levels key x 0 (suc count) ((pre, next) ∷ rest) (add_node l x height key v)
        ≡ link_levels key x 1 count rest now
  unfolding link_levels place_at add_node
  link_base count rest =
      let blank : Node = record { key = key; value = v; tower = replicate max_height 0 } in
      let l0 : SkipList = add_node l x height key v in
      let at : find x l0.nodes ≡ some blank =
        find-put x x blank l.nodes ∙ ground (arith, eq→== x x refl) in
      let l1 : SkipList = relinked l0 x 0 next blank 0 at refl in
      let first : Node = record blank { tower = set blank.tower 0 next } in
      let apart : (x == pre) ≡ false = ground (arith, ==→eq x pre, fresh, g.there) in
      let there : find pre l1.nodes ≡ some g.node =
        find-put x pre first l0.nodes
        ∙ rw apart (find-put x pre blank l.nodes ∙ rw apart g.there) in
      ground (
        arith,
        set_next_lem l0 x 0 next blank 0 at refl,
        cas_lem l1 now pre 0 next x g.node there g.link
            (set_next_lem l1 pre 0 x g.node next there g.link),
      )
