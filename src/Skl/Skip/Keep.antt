-- ===== src/Skl/Skip/Keep.antt =====
-- A link above the base level, to a node behind its own, keeps the order of the skip list.
use badger_rs.Common.{ℕ, ◌≤◌, ◌<◌}
use badger_rs.Common.{◌≡◌, refl, sym, ap, ◌∙◌, ◌≢◌, inl, inr, arith}
use badger_rs.Common.{true, ◌&&◌, some}
use badger_rs.Common.{◌==◌, Bool-cases}
use badger_rs.Common.{==→eq}
use badger_rs.Common.{get_elem?}
use badger_rs.Common.{some_inj}
use badger_rs.Common.Keys.{Key, key_le}
use badger_rs.Common.Maps.{find}
use badger_rs.Skl.Skip.{Node, SkipList}
use badger_rs.Skl.Skip.Order.{Has, ahead, IsList}
use badger_rs.Skl.Skip.Link.{Kept, Relinked}

module _ {l l' : SkipList} {o level n : ℕ} (r : Relinked l o level n l') where
  pub Has-back :
      (j : ℕ) (jd' : Node) → Has l' j jd' → (jd : Node) × (Has l j jd × Kept o level n j jd jd')
  Has-back j jd' has =
      let (jd, (e, k)) = r.back j jd' has.0 in (jd, ((e, λ h. has.1 (h ∙ sym r.head)), k))

  pub Has-forth :
      (j : ℕ) (jd : Node) → Has l j jd → (jd' : Node) × (Has l' j jd' × Kept o level n j jd jd')
  Has-forth j jd has =
      let (jd', (e, k)) = r.forth j jd has.0 in (jd', ((e, λ h. has.1 (h ∙ r.head)), k))

  pub ahead-Kept :
      (j : ℕ) (jd jd' : Node) (k k' : Key)
      → Kept o level n j jd jd'
      → k' ≡ k
      → ahead l' j jd' k' ≡ ahead l j jd k
  ahead-Kept j jd jd' k k' kept e = rw (r.head, kept.key, e) refl

  module _ (ok : IsList l) (up : 1 ≤ level) (inside : level < l.height)
      (target : n ≢ 0
        → (nn : Node) × (Has l n nn
            × ((nd : Node) → find o l.nodes ≡ some nd → ahead l o nd nn.key ≡ true))) where
    keep_links :
        (j : ℕ) (jd' : Node) (lv m : ℕ)
        → find j l'.nodes ≡ some jd'
        → get_elem? jd'.tower lv ≡ some m
        → m ≢ 0
        → (md' : Node) × (Has l' m md' × (ahead l' j jd' md'.key ≡ true))
    keep_links j jd' lv m at link proper =
        let (jd, (e, kept)) = r.back j jd' at in
        let old : (md : Node) × (Has l m md × (ahead l j jd md.key ≡ true)) =
          elim (Bool-cases (o == j && level == lv)) [
            | inl f ↦
                let same : n ≡ m = some_inj (ground (arith, kept.tower lv, link, f)) in
                let (nn, (has, fwd)) = target (λ z. proper (sym same ∙ z)) in
                let here : o ≡ j = ==→eq o j (ground (arith, f)) in
                (nn, (rw (← same) has, rw (← here) (fwd jd (ap (λ t. find t l.nodes) here ∙ e))))
            | inr f ↦ ok.links j jd lv m e (ground (arith, kept.tower lv, link, f)) proper
          ] in
        let (md', (has', kept')) = Has-forth m old.0 old.1.0 in
        (md', (has', ahead-Kept j jd jd' old.0.key md'.key kept kept'.key ∙ old.1.1))

    keep_base :
        (j : ℕ) (jd' : Node) (m : ℕ) (md' : Node)
        → find j l'.nodes ≡ some jd'
        → Has l' m md'
        → ahead l' j jd' md'.key ≡ true
        → (s : ℕ) × ((ss : Node) × ((get_elem? jd'.tower 0 ≡ some s)
              × ((s ≢ 0) × (Has l' s ss × (key_le ss.key md'.key ≡ true)))))
    keep_base j jd' m md' at has fwd =
        let (jd, (e, kept)) = r.back j jd' at in
        let (md, (has0, kept0)) = Has-back m md' has in
        let (s, (ss, (link, (proper, (there, le))))) =
          ok.base j jd m md e has0
            (sym (ahead-Kept j jd jd' md.key md'.key kept kept0.key) ∙ fwd) in
        let (ss', (there', kept')) = Has-forth s ss there in
        (
          s,
          (
            ss',
            (
              ground (arith, kept.tower 0, link, up),
              (proper, (there', rw (kept'.key, kept0.key) le)),
            ),
          ),
        )

    pub Relinked-IsList : IsList l'
    Relinked-IsList = record {
      low = rw r.height ok.low;
      high = rw r.height ok.high;
      head_proper = λ z. ok.head_proper (sym r.head ∙ z);
      null = r.null ok.null;
      head_there =
          let (hd, e) = ok.head_there in
          let (hd', (e', _)) = r.forth l.head hd e in (hd', rw r.head e');
      unique = λ a ad b bd x y e.
          let (ad0, (x0, ka)) = Has-back a ad x in
          let (bd0, (y0, kb)) = Has-back b bd y in
          ok.unique a ad0 b bd0 x0 y0 (sym ka.key ∙ e ∙ kb.key);
      towers = λ j jd' at. let (jd, (e, kept)) = r.back j jd' at in kept.size ∙ ok.towers j jd e;
      above = λ hd' lv at over lw.
          let (hd, (e, kept)) = r.back l.head hd' (rw r.head at at) in
          ground (
            arith,
            kept.tower lv,
            ok.above hd lv e (rw r.height at over) lw,
            rw r.height at over,
            inside,
          );
      links = keep_links;
      base = keep_base;
    }
