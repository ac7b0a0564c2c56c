-- ===== src/Skl/Skip/Climb.antt =====
-- Linking the new node on the levels above the base.
use badger_rs.Common.{ℕ, suc, ◌+◌, ◌≤◌, ◌<◌}
use badger_rs.Common.{◌≡◌, refl, sym, ap, ◌∙◌, ◌≢◌, arith}
use badger_rs.Common.{true, false, ◌&&◌, some}
use badger_rs.Common.{List, [], ◌∷◌}
use badger_rs.Common.{ltb, ◌==◌}
use badger_rs.Common.{none-some, eq→==}
use badger_rs.Common.{length, get_elem?}
use badger_rs.Common.Keys.{Key}
use badger_rs.Common.Maps.{find}
use badger_rs.Skl.Skip.{max_height, Node, SkipList}
use badger_rs.Skl.Skip.Order.{Has, IsList}
use badger_rs.Skl.Skip.Splice.{Gap, hit, gap, Gap-apart, find_splice-Spliced}
use badger_rs.Skl.Skip.Insert.{place_at}
use badger_rs.Skl.Skip.Link.{Relinked}
use badger_rs.Skl.Skip.Keep.{Has-back, Has-forth, ahead-Kept}

-- The same nodes, with other links.
pub record Steady (l l' : SkipList) : Type 0 where
  pub back :
      (j : ℕ) (jd' : Node)
      → Has l' j jd'
      → (jd : Node) × (Has l j jd × ((jd'.key ≡ jd.key) × (jd'.value ≡ jd.value)))
  pub forth :
      (j : ℕ) (jd : Node)
      → Has l j jd
      → (jd' : Node) × (Has l' j jd' × ((jd'.key ≡ jd.key) × (jd'.value ≡ jd.value)))

pub Steady-refl : (l : SkipList) → Steady l l
Steady-refl l = record {
  back = λ j jd has. (jd, (has, (refl, refl)));
  forth = λ j jd has. (jd, (has, (refl, refl)));
}

pub Steady-trans : (l m n : SkipList) → Steady l m → Steady m n → Steady l n
Steady-trans l m n a b = record {
  back = λ j jd'' has.
      let (jd', (has', (k', v'))) = b.back j jd'' has in
      let (jd, (has0, (k, v))) = a.back j jd' has' in (jd, (has0, (k' ∙ k, v' ∙ v)));
  forth = λ j jd has.
      let (jd', (has', (k, v))) = a.forth j jd has in
      let (jd'', (has'', (k', v'))) = b.forth j jd' has' in (jd'', (has'', (k' ∙ k, v' ∙ v)));
}

module _ {l l' : SkipList} {o level n : ℕ} (r : Relinked l o level n l') where
  pub Relinked-Steady : Steady l l'
  Relinked-Steady = record {
    back =
        λ j jd' has. let (jd, (has0, k)) = Has-back r j jd' has in (jd, (has0, (k.key, k.value)));
    forth =
        λ j jd has. let (jd', (has', k)) = Has-forth r j jd has in (jd', (has', (k.key, k.value)));
  }

  -- A gap stays one when another link is set.
  pub Gap-Relinked :
      (ok : IsList l) (ok' : IsList l') (key : Key) (lv p q : ℕ)
      → (o == p && level == lv) ≡ false
      → Gap l ok key lv p q
      → Gap l' ok' key lv p q
  Gap-Relinked ok ok' key lv p q other g =
      let (pd, (there, kept)) = r.forth p g.node g.there in
      record {
        node = pd;
        there = there;
        before = ahead-Kept r p g.node pd key key kept refl ∙ g.before;
        link = kept.tower lv ∙ rw other g.link;
        after = λ some_q.
            let (nn, (has, lt)) = g.after some_q in
            let (nn', (has', k)) = Has-forth r q nn has in (nn', (has', rw k.key lt));
      }

pub record Climbing (key : Key) (x i : ℕ) (places : List (ℕ × ℕ)) (l : SkipList) : Type 0 where
  pub ok : IsList l
  pub it : Node
  pub has : Has l x it
  pub same : it.key ≡ key
  pub unlinked :
      (j : ℕ) (jd : Node) (lv : ℕ)
      → find j l.nodes ≡ some jd
      → i ≤ lv
      → get_elem? jd.tower lv ≢ some x
  pub gaps :
      (k p q : ℕ) → get_elem? places k ≡ some (p, q) → i + k < max_height → Gap l ok key (i + k) p q
  pub searched : 2 ≤ i + length places

module _ (key : Key) (x : ℕ) where
  pub record Placed (i : ℕ) (places : List (ℕ × ℕ)) (l : SkipList) (ok : IsList l) : Type 0 where
    pub pre : ℕ
    pub next : ℕ
    pub rest : List (ℕ × ℕ)
    pub runs : place_at l key i places ≡ some ((pre, next), rest)
    pub here : Gap l ok key i pre next
    pub later :
        (k p q : ℕ)
        → get_elem? rest k ≡ some (p, q)
        → suc i + k < max_height
        → Gap l ok key (suc i + k) p q
    pub searched : 2 ≤ suc i + length rest

  pub place_at-Placed :
      (i : ℕ) (places : List (ℕ × ℕ)) (l : SkipList) (c : Climbing key x i places l)
      → i < max_height
      → Placed i places l c.ok
  unfolding place_at
  place_at-Placed i ((p, q) ∷ places) l c low = record {
    pre = p;
    next = q;
    rest = places;
    runs = refl;
    here = let z : i + 0 ≡ i = omega arith in rw z at (c.gaps 0 p q refl (omega arith));
    later = λ k a b e lw.
        let z : i + suc k ≡ suc i + k = omega arith in
        rw z at (c.gaps (suc k) a b e (omega (arith, lw)));
    searched = omega (arith, c.searched);
  }
  place_at-Placed i [] l c low =
      let (hd, there) = c.ok.head_there in
      let apart : ltb 1 i ≡ true = ground (arith, c.searched) in
      elim (find_splice-Spliced l c.ok key i l.head hd low there
        (ground (arith, eq→== l.head l.head refl))) [
          | hit o e h ↦
              let mine : o ≡ x = c.ok.unique o h.node x c.it h.has c.has (h.same ∙ sym c.same) in
              absurd (
                c.unlinked h.pre h.pre_node i h.pre_there (omega arith)
                  (h.link ∙ ap (λ t. some t) mine))
          | gap p q e g ↦ record {
            pre = p;
            next = q;
            rest = [];
            runs = ground (arith, e, apart, Gap-apart l c.ok key i p q g);
            here = g;
            later = λ k a b f _. absurd (none-some _ f);
            searched = omega (arith, c.searched);
          }
        ]
