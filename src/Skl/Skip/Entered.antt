-- ===== src/Skl/Skip/Entered.antt =====
-- The skip list is in order after a new node has entered its base level.
use badger_rs.Common.{ℕ, ◌≤◌}
use badger_rs.Common.{◌≡◌, sym, ap, ◌∙◌, ◌≢◌, inl, inr, arith}
use badger_rs.Common.{true, false, ◌&&◌, none, some}
use badger_rs.Common.{◌==◌, Bool-cases}
use badger_rs.Common.{none-some, ==→eq}
use badger_rs.Common.{length, get_elem?, set, replicate}
use badger_rs.Common.{length-replicate, length-set}
use badger_rs.Common.{some_inj}
use badger_rs.Common.Keys.{
  Key, key_lt, key_le, key_cmp_flip_lt, key_cmp_trans, key_le_refl, key_le_antisym, key_lt-not_le,
  key_lt_le, key_lt_le_trans, key_le_lt_trans, key_lt_irrefl,
}
use badger_rs.Common.Maps.{find}
use badger_rs.Value.{ValueStruct}
use badger_rs.Merge.Invariant.{get-set}
use badger_rs.Skl.Skip.{max_height, Node, SkipList}
use badger_rs.Skl.Skip.Order.{Has, ahead, IsList}
use badger_rs.Skl.Skip.Splice.{Gap, Gap-absent, proper}
use badger_rs.Skl.Skip.Link.{Kept}
use badger_rs.Skl.Skip.Enter.{
  replicate_zero, first_node, entered, find-entered, found_new, forth, View, new_one, old_one, view,
}

module _ (l : SkipList) (ok : IsList l) (key : Key) (v : ValueStruct) (x height pre next : ℕ)
    (fresh : find x l.nodes ≡ none) (x_proper : x ≢ 0) (g : Gap l ok key 0 pre next) where
  abbrev now : SkipList
  now = entered l ok key v x height pre next fresh x_proper g

  abbrev it : Node
  it = first_node l ok key v x height pre next fresh x_proper g

  abbrev Seen : ℕ → Node → Type 0
  Seen = View l ok key v x height pre next fresh x_proper g

  see : (j : ℕ) (jd' : Node) → find j now.nodes ≡ some jd' → Seen j jd'
  see = view l ok key v x height pre next fresh x_proper g

  keep :
      (j : ℕ) (jd : Node)
      → find j l.nodes ≡ some jd
      → (jd' : Node) × ((find j now.nodes ≡ some jd') × Kept pre 0 x j jd jd')
  keep = forth l ok key v x height pre next fresh x_proper g

  fresh_not_head : x ≢ l.head
  fresh_not_head e =
      let (hd, at) = ok.head_there in none-some hd (sym fresh ∙ ap (λ t. find t l.nodes) e ∙ at)

  pub new-Has : Has now x it
  new-Has = (found_new l ok key v x height pre next fresh x_proper g, fresh_not_head)

  -- A node behind the gap is behind the second node of the gap.
  behind_gap :
      (m : ℕ) (md : Node)
      → Has l m md
      → ahead l pre g.node md.key ≡ true
      → (nn : Node) × ((next ≢ 0)
          × (Has l next nn × ((key_lt key nn.key ≡ true) × (key_le nn.key md.key ≡ true))))
  behind_gap m md has fwd =
      let (s, (ss, (link, (some_s, (there, le))))) = ok.base pre g.node m md g.there has fwd in
      let same : s ≡ next = some_inj (sym link ∙ g.link) in
      let (nn, (has', lt)) = g.after (λ z. some_s (same ∙ z)) in
      let here : ss ≡ nn = some_inj (sym there.0 ∙ ap (λ t. find t l.nodes) same ∙ has'.0) in
      (nn, (λ z. some_s (same ∙ z), (has', (lt, rw (← here) le))))

  -- A node before the key is not behind the gap.
  pre_last :
      (m : ℕ) (md : Node)
      → Has l m md
      → key_lt md.key key ≡ true
      → ahead l pre g.node md.key ≡ false
  pre_last m md has lt = elim (Bool-cases (ahead l pre g.node md.key)) [
    | inr e ↦ e
    | inl e ↦
        let (nn, (_, (_, (a, b)))) = behind_gap m md has e in
        absurd
          (ground (arith, lt, a, b, key_lt_le_trans key nn.key md.key, key_cmp_flip_lt md.key key))
  ]

  entered_links :
      (j : ℕ) (jd' : Node) (lv m : ℕ)
      → find j now.nodes ≡ some jd'
      → get_elem? jd'.tower lv ≡ some m
      → m ≢ 0
      → (md' : Node) × (Has now m md' × (ahead now j jd' md'.key ≡ true))
  entered_links j jd' lv m at link some_m = elim (see j jd' at) [
    | new_one a b ↦
        let tower : get_elem? (set (replicate max_height 0) 0 next) lv ≡ some m =
          sym (ap (λ t. get_elem? (Node.tower t) lv) b) ∙ link in
        elim (Bool-cases (0 == lv)) [
          | inl f ↦
              let same : next ≡ m =
                some_inj (ground (arith, f, tower, get-set (replicate max_height 0) 0 lv next)) in
              let (nn, (has, lt)) = g.after (λ z. some_m (sym same ∙ z)) in
              let (nn', (e, kept)) = keep next nn has.0 in
              (nn', ((rw (← same) e, rw (← same) has.1), rw (b, kept.key) (ground (arith, lt))))
          | inr f ↦ absurd (
              some_m (
                replicate_zero max_height lv m
                  (ground (arith, f, tower, get-set (replicate max_height 0) 0 lv next))))
        ]
    | old_one jd e kept ↦ elim (Bool-cases (pre == j && 0 == lv)) [
      | inl f ↦
          let same : x ≡ m = some_inj (ground (arith, kept.tower lv, link, f)) in
          let here : pre ≡ j = ==→eq pre j (ground (arith, f)) in
          let node : g.node ≡ jd = some_inj (sym g.there ∙ ap (λ t. find t l.nodes) here ∙ e) in
          (it, (rw (← same) new-Has, rw (← here, kept.key, ← node) g.before))
      | inr f ↦
          let (md, (has, fwd)) =
            ok.links j jd lv m e (ground (arith, kept.tower lv, link, f)) some_m in
          let (md', (e', kept')) = keep m md has.0 in
          (md', ((e', has.1), rw (kept.key, kept'.key) fwd))
    ]
  ]

  -- The next node of an old node.
  base_old :
      (j : ℕ) (jd jd' : Node) (m : ℕ) (md : Node)
      → find j l.nodes ≡ some jd
      → Kept pre 0 x j jd jd'
      → Has l m md
      → ahead l j jd md.key ≡ true
      → (s : ℕ) × ((ss : Node) × ((get_elem? jd'.tower 0 ≡ some s)
            × ((s ≢ 0) × (Has now s ss × (key_le ss.key md.key ≡ true)))))
  base_old j jd jd' m md e kept has fwd = elim (Bool-cases (pre == j)) [
    | inl f ↦
        let here : pre ≡ j = ==→eq pre j f in
        let node : g.node ≡ jd = some_inj (sym g.there ∙ ap (λ t. find t l.nodes) here ∙ e) in
        let (nn, (_, (_, (a, b)))) = behind_gap m md has (rw (here, node) fwd) in
        (
          x,
          (
            it,
            (
              ground (arith, kept.tower 0, f),
              (x_proper, (new-Has, ground (arith, a, b, key_lt_le_trans key nn.key md.key))),
            ),
          ),
        )
    | inr f ↦
        let (s, (ss, (link, (some_s, (there, le))))) = ok.base j jd m md e has fwd in
        let (ss', (e', kept')) = keep s ss there.0 in
        (
          s,
          (
            ss',
            (ground (arith, kept.tower 0, f, link), (some_s, ((e', there.1), rw kept'.key le))),
          ),
        )
  ]

  -- An old node before the key, other than the first of the gap, is before that.
  to_pre :
      (j : ℕ) (jd : Node)
      → find j l.nodes ≡ some jd
      → ahead l j jd key ≡ true
      → (pre == j) ≡ false
      → (s : ℕ) × ((ss : Node) × ((get_elem? jd.tower 0 ≡ some s)
            × ((s ≢ 0) × (Has l s ss × (key_le ss.key key ≡ true)))))
  to_pre j jd e fwd f =
      let body : (j == l.head) ≡ false → (ahead l pre g.node jd.key ≡ false) =
        λ h. pre_last j jd (e, λ z. ground (arith, z, h)) (ground (arith, fwd, h)) in
      let pre_body : pre ≢ l.head = λ z. ground (arith, z, f, body, ==→eq j l.head) in
      let before : ahead l j jd g.node.key ≡ true = elim (Bool-cases (j == l.head)) [
        | inl h ↦ ground (arith, h)
        | inr h ↦ elim (Bool-cases (key_lt jd.key g.node.key)) [
          | inl lt ↦ ground (arith, lt)
          | inr no_lt ↦
              let le : key_le g.node.key jd.key ≡ true =
                ground (arith, no_lt, key_lt-not_le jd.key g.node.key) in
              let ge : key_le jd.key g.node.key ≡ true =
                ground (arith, body h, key_lt-not_le g.node.key jd.key) in
              let same : j ≡ pre =
                ok.unique j jd pre g.node (e, λ z. ground (arith, z, h)) (g.there, pre_body)
                  (key_le_antisym jd.key g.node.key ge le) in
              absurd (ground (arith, same, f))
        ]
      ] in
      let (s, (ss, (link, (some_s, (there, le))))) =
        ok.base j jd pre g.node e (g.there, pre_body) before in
      let lt : key_lt g.node.key key ≡ true =
        ground (arith, g.before, pre_body, ==→eq pre l.head) in
      (
        s,
        (
          ss,
          (
            link,
            (some_s, (there, key_lt_le ss.key key (key_le_lt_trans ss.key g.node.key key le lt))),
          ),
        ),
      )

  -- The next node of an old node before the key.
  base_new :
      (j : ℕ) (jd jd' : Node)
      → find j l.nodes ≡ some jd
      → Kept pre 0 x j jd jd'
      → ahead l j jd key ≡ true
      → (s : ℕ) × ((ss : Node) × ((get_elem? jd'.tower 0 ≡ some s)
            × ((s ≢ 0) × (Has now s ss × (key_le ss.key key ≡ true)))))
  base_new j jd jd' e kept fwd = elim (Bool-cases (pre == j)) [
    | inl f ↦ (x, (it, (ground (arith, kept.tower 0, f), (x_proper, (new-Has, key_le_refl key)))))
    | inr f ↦
        let (s, (ss, (link, (some_s, (there, le))))) = to_pre j jd e fwd f in
        let (ss', (e', kept')) = keep s ss there.0 in
        (
          s,
          (
            ss',
            (ground (arith, kept.tower 0, f, link), (some_s, ((e', there.1), rw kept'.key le))),
          ),
        )
  ]

  entered_base :
      (j : ℕ) (jd' : Node) (m : ℕ) (md' : Node)
      → find j now.nodes ≡ some jd'
      → Has now m md'
      → ahead now j jd' md'.key ≡ true
      → (s : ℕ) × ((ss : Node) × ((get_elem? jd'.tower 0 ≡ some s)
            × ((s ≢ 0) × (Has now s ss × (key_le ss.key md'.key ≡ true)))))
  entered_base j jd' m md' at has fwd = elim (see j jd' at) [
    | new_one a b ↦
        let self : (j == l.head) ≡ false = ground (arith, a, fresh_not_head, ==→eq j l.head) in
        let key_j : jd'.key ≡ key = ap Node.key b in
        elim (see m md' has.0) [
          | new_one c d ↦
              let key_m : md'.key ≡ key = ap Node.key d in
              absurd (ground (arith, fwd, self, key_j, key_m, key_lt_irrefl key))
          | old_one md e kept ↦
              let lt : key_lt key md.key ≡ true = ground (arith, fwd, self, key_j, kept.key) in
              let (nn, (some_next, (there, (_, le)))) =
                behind_gap m md (e, has.1)
                  (ground (arith, g.before, key_cmp_trans g.node.key key md.key, lt)) in
              let (nn', (e', kept')) = keep next nn there.0 in
              (
                next,
                (
                  nn',
                  (
                    ap (λ t. get_elem? (Node.tower t) 0) b,
                    (some_next, ((e', there.1), rw (kept'.key, kept.key) le)),
                  ),
                ),
              )
        ]
    | old_one jd e kept ↦ elim (see m md' has.0) [
      | new_one c d ↦
          let key_m : md'.key ≡ key = ap Node.key d in
          rw key_m (base_new j jd jd' e kept (ground (arith, fwd, key_m, kept.key)))
      | old_one md e2 kept2 ↦
          rw kept2.key
            (base_old j jd jd' m md e kept (e2, has.1) (ground (arith, fwd, kept.key, kept2.key)))
    ]
  ]

  entered_towers :
      (j : ℕ) (jd' : Node) → find j now.nodes ≡ some jd' → length jd'.tower ≡ max_height
  entered_towers j jd' at = elim (see j jd' at) [
    | new_one a b ↦
        ap (λ t. length (Node.tower t)) b
        ∙ length-set (replicate max_height 0) 0 next
        ∙ length-replicate {A = ℕ} max_height 0
    | old_one jd e kept ↦ kept.size ∙ ok.towers j jd e
  ]

  entered_unique :
      (a : ℕ) (ad : Node) (b : ℕ) (bd : Node)
      → Has now a ad
      → Has now b bd
      → ad.key ≡ bd.key
      → a ≡ b
  entered_unique a ad b bd p q same = elim (see a ad p.0) [
    | new_one c d ↦ elim (see b bd q.0) [
      | new_one c2 d2 ↦ c ∙ sym c2
      | old_one bd0 e kept ↦
          absurd (
            Gap-absent l ok key pre next g b bd0 (e, q.1) (sym kept.key ∙ sym same ∙ ap Node.key d))
    ]
    | old_one ad0 e kept ↦ elim (see b bd q.0) [
      | new_one c2 d2 ↦
          absurd
            (Gap-absent l ok key pre next g a ad0 (e, p.1) (sym kept.key ∙ same ∙ ap Node.key d2))
      | old_one bd0 e2 kept2 ↦
          ok.unique a ad0 b bd0 (e, p.1) (e2, q.1) (sym kept.key ∙ same ∙ kept2.key)
    ]
  ]

  pub entered-IsList : 1 ≤ height → height ≤ max_height → IsList now
  entered-IsList low high = record {
    low = ground (arith, ok.low);
    high = ground (arith, ok.high, high);
    head_proper = ok.head_proper;
    null =
        find-entered l ok key v x height pre next fresh x_proper g 0
        ∙ ground
            (arith, ok.null, ==→eq x 0, x_proper, ==→eq pre 0, proper l ok key pre g.node g.there);
    head_there = let (hd, e) = ok.head_there in let (hd', (e', _)) = keep l.head hd e in (hd', e');
    unique = entered_unique;
    towers = entered_towers;
    above = λ hd' lv at over lw. elim (see l.head hd' at) [
      | new_one a b ↦ absurd (fresh_not_head (sym a))
      | old_one hd e kept ↦
          ground (arith, kept.tower lv, over, ok.low, ok.above hd lv e (ground (arith, over)) lw)
    ];
    links = entered_links;
    base = entered_base;
  }
