-- ===== src/Skl/Skip/Value.antt =====
-- Giving a node of the skip list a new value.
use badger_rs.Common.{ℕ}
use badger_rs.Common.{◌≡◌, refl, sym, ap, ◌∙◌, ◌≢◌, ◌↔◌, inl, inr, arith}
use badger_rs.Common.{some}
use badger_rs.Common.{◌==◌, Bool-cases}
use badger_rs.Common.{eq→==, ==→eq}
use badger_rs.Common.{length, get_elem?}
use badger_rs.Common.{some_inj}
use badger_rs.Common.Maps.{find, put, find-put}
use badger_rs.Common.Maps
use badger_rs.Value.{ValueStruct}
use badger_rs.Skl.Skip.{Node, SkipList}
use badger_rs.Skl.Skip.Order.{Has, IsList}
use badger_rs.Skl.Skip.Insert.{store_value}

-- The same key and links.
pub record Same (jd jd' : Node) : Type 0 where
  pub key : jd'.key ≡ jd.key
  pub tower : jd'.tower ≡ jd.tower

Same-refl : (jd : Node) → Same jd jd
Same-refl jd = record { key = refl; tower = refl }

module _ (l : SkipList) (ok : IsList l) (o : ℕ) (nd : Node) (has : Has l o nd)
    (v : ValueStruct) where
  abbrev pub valued : Node
  valued = record nd { value = v }

  abbrev pub revalued : SkipList
  revalued = record l { nodes = Maps.put o valued l.nodes }

  pub store_value_lem : store_value l o v ≡ some revalued
  unfolding store_value
  store_value_lem = rw (has.0) refl

  pub there : find o revalued.nodes ≡ some valued
  there = find-put o o valued l.nodes ∙ ground (arith, eq→== o o refl)

  back :
      (j : ℕ) (jd' : Node)
      → find j revalued.nodes ≡ some jd'
      → (jd : Node) × ((find j l.nodes ≡ some jd) × Same jd jd')
  back j jd' e = elim (Bool-cases (o == j)) [
    | inl f ↦
        let same : o ≡ j = ==→eq o j f in
        let here : valued ≡ jd' = some_inj (sym (find-put o j valued l.nodes ∙ rw f refl) ∙ e) in
        (nd, (rw (← same) has.0, rw (← here) (record { key = refl; tower = refl })))
    | inr f ↦ (jd', (sym (find-put o j valued l.nodes ∙ rw f refl) ∙ e, Same-refl jd'))
  ]

  forth :
      (j : ℕ) (jd : Node)
      → find j l.nodes ≡ some jd
      → (jd' : Node) × ((find j revalued.nodes ≡ some jd') × Same jd jd')
  forth j jd e = elim (Bool-cases (o == j)) [
    | inl f ↦
        let same : o ≡ j = ==→eq o j f in
        let here : nd ≡ jd = some_inj (sym has.0 ∙ ap (λ t. find t l.nodes) same ∙ e) in
        (
          valued,
          (
            find-put o j valued l.nodes ∙ rw f refl,
            rw (← here) (record { key = refl; tower = refl }),
          ),
        )
    | inr f ↦ (jd, (find-put o j valued l.nodes ∙ rw f e, Same-refl jd))
  ]

  -- A node with another key is as before.
  pub untouched :
      (j : ℕ) (jd : Node)
      → jd.key ≢ nd.key
      → (find j revalued.nodes ≡ some jd) ↔ (find j l.nodes ≡ some jd)
  untouched j jd differ = elim (Bool-cases (o == j)) [
    | inl f ↦
        let same : o ≡ j = ==→eq o j f in
        let now : find j revalued.nodes ≡ some valued = find-put o j valued l.nodes ∙ rw f refl in
        let before : find j l.nodes ≡ some nd = ap (λ t. find t l.nodes) (sym same) ∙ has.0 in
        (
          λ e. let d : jd ≡ valued = some_inj (sym e ∙ now) in absurd (differ (ap Node.key d)),
          λ e. let d : jd ≡ nd = some_inj (sym e ∙ before) in absurd (differ (ap Node.key d)),
        )
    | inr f ↦
        let same : find j revalued.nodes ≡ find j l.nodes =
          find-put o j valued l.nodes ∙ rw f refl in
        (λ e. sym same ∙ e, λ e. same ∙ e)
  ]

  pub revalued-IsList : IsList revalued
  revalued-IsList = record {
    low = ok.low;
    high = ok.high;
    head_proper = ok.head_proper;
    null = find-put o 0 valued l.nodes ∙ ground (arith, ok.null, ==→eq o 0, has.0);
    head_there = let (hd, e) = ok.head_there in let (hd', (e', _)) = forth l.head hd e in (hd', e');
    unique = λ a ad b bd x y e.
        let (ad0, (x0, ka)) = back a ad x.0 in
        let (bd0, (y0, kb)) = back b bd y.0 in
        ok.unique a ad0 b bd0 (x0, x.1) (y0, y.1) (sym ka.key ∙ e ∙ kb.key);
    towers = λ j jd' at. let (jd, (e, k)) = back j jd' at in ap length k.tower ∙ ok.towers j jd e;
    above = λ hd' lv at over lw.
        let (hd, (e, k)) = back l.head hd' at in
        ap (λ t. get_elem? t lv) k.tower ∙ ok.above hd lv e over lw;
    links = λ j jd' lv m at link proper.
        let (jd, (e, k)) = back j jd' at in
        let (md, (there, fwd)) =
          ok.links j jd lv m e (ap (λ t. get_elem? t lv) (sym k.tower) ∙ link) proper in
        let (md', (there', k')) = forth m md there.0 in
        (md', ((there', there.1), rw (k.key, k'.key) fwd));
    base = λ j jd' m md' at has' fwd.
        let (jd, (e, k)) = back j jd' at in
        let (md, (f, km)) = back m md' has'.0 in
        let (s, (ss, (link, (proper, (there, le))))) =
          ok.base j jd m md e (f, has'.1) (rw (k.key, km.key) at fwd) in
        let (ss', (there', ks)) = forth s ss there.0 in
        (
          s,
          (
            ss',
            (
              ap (λ t. get_elem? t 0) k.tower ∙ link,
              (proper, ((there', there.1), rw (ks.key, km.key) le)),
            ),
          ),
        );
  }
