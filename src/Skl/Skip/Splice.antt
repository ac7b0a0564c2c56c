-- ===== src/Skl/Skip/Splice.antt =====
-- The splice of a level: the two nodes between which a key goes, or the node that has it.
use badger_rs.Skl.Skip.Near.{closer}
use badger_rs.Skl.Skip.Near.{key_at_lem}
use badger_rs.Skl.Skip.Near.{get_next_lem}
use badger_rs.Skl.Skip.{search_fuel}
use badger_rs.Skl.Skip.{find_splice_for_level}
use badger_rs.Skl.Skip.{max_height}
use badger_rs.Common.{ℕ, zero, suc, ◌<◌}
use badger_rs.Common.{◌≡◌, sym, ap, ◌∙◌, ◌≢◌, inl, inr, arith}
use badger_rs.Common.{true, false, Option, some}
use badger_rs.Common.{◌==◌, Bool-cases, Ordering-cases}
use badger_rs.Common.{none-some, ==→eq}
use badger_rs.Common.{length, get_elem?, retain}
use badger_rs.Common.{length-retain}
use badger_rs.Common.{some_inj}
use badger_rs.Common.Keys.{Key, key_cmp, key_lt, key_cmp_eq, key_cmp_flip, key_cmp_flip_lt}
use badger_rs.Common.Maps.{find}
use badger_rs.Skl.Skip.{Node, SkipList}
use badger_rs.Skl.Skip.Near.{behind}
use badger_rs.Skl.Skip.Order.{Has, ahead, IsList}

module _ (l : SkipList) (ok : IsList l) (key : Key) where
  -- The node has the key, and a link of the level leads to it.
  pub record Hit (level o : ℕ) : Type 0 where
    pub node : Node
    pub has : Has l o node
    pub same : node.key ≡ key
    pub pre : ℕ
    pub pre_node : Node
    pub pre_there : find pre l.nodes ≡ some pre_node
    pub link : get_elem? pre_node.tower level ≡ some o

  -- The key goes between the two: behind the first, and before the second if there is one.
  pub record Gap (level pre next : ℕ) : Type 0 where
    pub node : Node
    pub there : find pre l.nodes ≡ some node
    pub before : ahead l pre node key ≡ true
    pub link : get_elem? node.tower level ≡ some next
    pub after : next ≢ 0 → (nn : Node) × (Has l next nn × (key_lt key nn.key ≡ true))

  pub data Spliced (level : ℕ) (run : Option (ℕ × ℕ)) : Type 0 where
    hit : (o : ℕ) → run ≡ some (o, o) → Hit level o → Spliced level run
    gap : (pre next : ℕ) → run ≡ some (pre, next) → Gap level pre next → Spliced level run

  -- The first of the two nodes is not the null pointer, and not the second.
  pub proper : (o : ℕ) (nd : Node) → find o l.nodes ≡ some nd → o ≢ 0
  proper o nd at z = none-some nd (sym ok.null ∙ ap (λ t. find t l.nodes) (sym z) ∙ at)

  pub Gap-apart : (level pre next : ℕ) → Gap level pre next → (pre == next) ≡ false
  Gap-apart level pre next g = elim (Bool-cases (pre == next)) [
    | inr e ↦ e
    | inl e ↦
        let same : pre ≡ next = ==→eq pre next e in
        let (nn, (has, lt)) = g.after (λ z. proper pre g.node g.there (same ∙ z)) in
        let here : g.node ≡ nn = some_inj (sym g.there ∙ ap (λ t. find t l.nodes) same ∙ has.0) in
        absurd (
          ground
            (arith, g.before, has.1, same, ==→eq pre l.head, here, lt, key_cmp_flip_lt key nn.key))
  ]

  splice_lem :
      (level fuel x : ℕ) (xd : Node)
      → level < max_height
      → find x l.nodes ≡ some xd
      → ahead l x xd key ≡ true
      → length (retain (behind l ok key x xd) l.nodes) < fuel
      → Spliced level (find_splice_for_level fuel l key x level)
  unfolding find_splice_for_level
  splice_lem level zero x xd low at before enough = absurd (omega arith)
  splice_lem level (suc fuel) x xd low at before enough =
      let (n, (step, next)) = get_next_lem l ok key x level xd at low in
      elim (Bool-cases (n == 0)) [
        | inl z ↦
            let null : n ≡ 0 = ==→eq n 0 z in
            gap x n (ground (arith, step, z, null)) (record {
              node = xd;
              there = at;
              before = before;
              link = next;
              after = λ h. absurd (h null);
            })
        | inr z ↦
            let (nn, (has, fwd)) = ok.links x xd level n at next (λ e. ground (arith, e, z)) in
            elim (Ordering-cases (key_cmp key nn.key)) [
              | inl o ↦
                  gap x n (ground (arith, step, z, o, key_at_lem l ok key n nn has.0)) (record {
                    node = xd;
                    there = at;
                    before = before;
                    link = next;
                    after = λ _. (nn, (has, ground (arith, o)));
                  })
              | inr (inl o) ↦
                  hit n (ground (arith, step, z, o, key_at_lem l ok key n nn has.0)) (record {
                    node = nn;
                    has = has;
                    same = sym (key_cmp_eq key nn.key o);
                    pre = x;
                    pre_node = xd;
                    pre_there = at;
                    link = next;
                  })
              | inr (inr o) ↦
                  elim (splice_lem level fuel n nn low has.0
                    (ground (arith, key_cmp_flip key nn.key o))
                    (omega (arith, closer l ok key x n xd nn has fwd))) [
                      | hit h e r ↦
                          hit h (ground (arith, step, z, o, e, key_at_lem l ok key n nn has.0)) r
                      | gap p q e r ↦
                          gap p q (ground (arith, step, z, o, e, key_at_lem l ok key n nn has.0)) r
                    ]
            ]
      ]

  -- With the fuel of a search, from a node that stands before the key.
  pub find_splice-Spliced :
      (level x : ℕ) (xd : Node)
      → level < max_height
      → find x l.nodes ≡ some xd
      → ahead l x xd key ≡ true
      → Spliced level (find_splice_for_level (search_fuel l) l key x level)
  find_splice-Spliced level x xd low at before =
      splice_lem level (search_fuel l) x xd low at before
        (omega (arith, length-retain (behind l ok key x xd) l.nodes))

  -- A gap of the base level shows that no node has the key.
  pub Gap-absent : (pre next : ℕ) → Gap 0 pre next → (m : ℕ) (md : Node) → Has l m md → md.key ≢ key
  Gap-absent pre next g m md has same =
      let (n, (nn, (e, (some_n, (there, le))))) =
        ok.base pre g.node m md g.there has (rw same g.before) in
      let here : n ≡ next = some_inj (sym e ∙ g.link) in
      let (nn', (there', lt)) = g.after (λ z. some_n (here ∙ z)) in
      let same_node : nn ≡ nn' =
        some_inj (sym there.0 ∙ ap (λ t. find t l.nodes) here ∙ there'.0) in
      ground (arith, le, lt, same, same_node, key_cmp_flip_lt key nn'.key)
