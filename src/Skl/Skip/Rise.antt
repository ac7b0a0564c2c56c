-- ===== src/Skl/Skip/Rise.antt =====
-- The loop that links the new node, level after level.
use badger_rs.Common.{ℕ, zero, suc, ◌+◌, ◌≤◌, ◌<◌}
use badger_rs.Common.{◌≡◌, refl, sym, ap, ◌∙◌, inl, inr, arith}
use badger_rs.Common.{false, Option, some}
use badger_rs.Common.{List}
use badger_rs.Common.{◌==◌, Bool-cases}
use badger_rs.Common.{eq→==, ==→eq}
use badger_rs.Common.{get_elem?}
use badger_rs.Common.{get_elem?-some}
use badger_rs.Common.{some_inj}
use badger_rs.Common.Keys.{Key, key_lt_irrefl}
use badger_rs.Common.Maps.{find}
use badger_rs.Skl.Skip.{max_height, Node, SkipList, get_next}
use badger_rs.Skl.Skip.Order.{IsList}
use badger_rs.Skl.Skip.Splice.{Gap}
use badger_rs.Skl.Skip.Insert.{set_next, cas_next_offset, link_levels}
use badger_rs.Skl.Skip.Link.{Relinked, relinked, set_next_lem, set_next-Relinked}
use badger_rs.Skl.Skip.Keep.{Has-forth, Relinked-IsList}
use badger_rs.Skl.Skip.Climb.{
  Steady, Steady-refl, Steady-trans, Relinked-Steady, Gap-Relinked, Climbing, Placed,
  place_at-Placed,
}

pub cas_lem :
    (l l' : SkipList) (o level old new : ℕ) (nd : Node)
    → find o l.nodes ≡ some nd
    → get_elem? nd.tower level ≡ some old
    → set_next l o level new ≡ some l'
    → cas_next_offset l o level old new ≡ some l'
unfolding cas_next_offset get_next
cas_lem l l' o level old new nd at link e = ground (arith, at, link, e, eq→== old old refl)

module _ (key : Key) (x : ℕ) where
  pub record Risen (run : Option SkipList) (l : SkipList) : Type 0 where
    pub l' : SkipList
    pub runs : run ≡ some l'
    pub ok : IsList l'
    pub steady : Steady l l'

  -- One level was linked.
  record Linked (i : ℕ) (places : List (ℕ × ℕ)) (l : SkipList) : Type 0 where
    rest : List (ℕ × ℕ)
    l2 : SkipList
    runs :
        (count : ℕ)
        → link_levels key x i (suc count) places l ≡ link_levels key x (suc i) count rest l2
    height : l2.height ≡ l.height
    steady : Steady l l2
    climbing : Climbing key x (suc i) rest l2

  module _ (i : ℕ) (places : List (ℕ × ℕ)) (l : SkipList) (c : Climbing key x i places l)
      (above_base : 1 ≤ i) (inside : i < l.height) (p : Placed key x i places l c.ok) where
    low : i < max_height
    low = omega (arith, c.ok.high, inside)

    -- The first of the gap is not the new node.
    other : (x == p.pre) ≡ false
    other = elim (Bool-cases (x == p.pre)) [
      | inr e ↦ e
      | inl e ↦
          let same : x ≡ p.pre = ==→eq x p.pre e in
          let node : p.here.node ≡ c.it =
            some_inj (sym p.here.there ∙ ap (λ t. find t l.nodes) (sym same) ∙ c.has.0) in
          absurd (
            ground (
              arith,
              p.here.before,
              same,
              c.has.1,
              ==→eq p.pre l.head,
              node,
              c.same,
              key_lt_irrefl key,
            ))
    ]

    -- The new node gets its link.
    old : (m : ℕ) × (get_elem? c.it.tower i ≡ some m)
    old = get_elem?-some c.it.tower i (omega (arith, c.ok.towers x c.it c.has.0, low))

    abbrev l1 : SkipList
    l1 = relinked l x i p.next c.it old.0 c.has.0 old.1

    r1 : Relinked l x i p.next l1
    r1 = set_next-Relinked l x i p.next c.it old.0 c.has.0 old.1

    ok1 : IsList l1
    ok1 = Relinked-IsList r1 c.ok above_base inside (λ some_next.
        let (nn, (has, lt)) = p.here.after some_next in
        (
          nn,
          (
            has,
            λ nd at.
                let same : nd ≡ c.it = some_inj (sym at ∙ c.has.0) in
                ground (arith, same, c.same, lt),
          ),
        ))

    -- And the first of the gap is linked to the new node.
    gap1 : Gap l1 ok1 key i p.pre p.next
    gap1 = Gap-Relinked r1 c.ok ok1 key i p.pre p.next (ground (arith, other)) p.here

    abbrev l2 : SkipList
    l2 = relinked l1 p.pre i x gap1.node p.next gap1.there gap1.link

    r2 : Relinked l1 p.pre i x l2
    r2 = set_next-Relinked l1 p.pre i x gap1.node p.next gap1.there gap1.link

    ok2 : IsList l2
    ok2 = Relinked-IsList r2 ok1 above_base inside (λ _.
        let (it1, (has1, k1)) = Has-forth r1 x c.it c.has in
        (
          it1,
          (
            has1,
            λ nd at.
                let same : nd ≡ gap1.node = some_inj (sym at ∙ gap1.there) in
                rw (same, k1.key, c.same) gap1.before,
          ),
        ))

    link_runs :
        (count : ℕ)
        → link_levels key x i (suc count) places l ≡ link_levels key x (suc i) count p.rest l2
    unfolding link_levels
    link_runs count = ground (
      arith,
      p.runs,
      set_next_lem l x i p.next c.it old.0 c.has.0 old.1,
      cas_lem l1 l2 p.pre i p.next x gap1.node gap1.there gap1.link
          (set_next_lem l1 p.pre i x gap1.node p.next gap1.there gap1.link),
    )

    linked : Linked i places l
    linked =
        let (it1, (has1, k1)) = Has-forth r1 x c.it c.has in
        let (it2, (has2, k2)) = Has-forth r2 x it1 has1 in
        record {
          rest = p.rest;
          l2 = l2;
          runs = link_runs;
          height = refl;
          steady = Steady-trans l l1 l2 (Relinked-Steady r1) (Relinked-Steady r2);
          climbing = record {
            ok = ok2;
            it = it2;
            has = has2;
            same = k2.key ∙ k1.key ∙ c.same;
            unlinked = λ j jd2 lv at up link.
                let (jd1, (at1, kept2)) = r2.back j jd2 at in
                let (jd, (at0, kept1)) = r1.back j jd1 at1 in
                c.unlinked j jd lv at0 (omega arith)
                  (ground (arith, kept2.tower lv, kept1.tower lv, link, up, ==→eq i lv));
            gaps = λ k a b e lw.
                Gap-Relinked r2 ok1 ok2 key (suc i + k) a b (ground arith) (
                  Gap-Relinked r1 c.ok ok1 key (suc i + k) a b (ground arith) (p.later k a b e lw));
            searched = p.searched;
          };
        }

  pub link_levels-Risen :
      (count i : ℕ) (places : List (ℕ × ℕ)) (l : SkipList)
      → Climbing key x i places l
      → 1 ≤ i
      → i + count ≤ l.height
      → Risen (link_levels key x i count places l) l
  unfolding link_levels
  link_levels-Risen zero i places l c up inside = record {
    l' = l;
    runs = refl;
    ok = c.ok;
    steady = Steady-refl l;
  }
  link_levels-Risen (suc count) i places l c up inside =
      let p = place_at-Placed key x i places l c (omega (arith, c.ok.high)) in
      let one = linked i places l c up (omega arith) p in
      let all =
        link_levels-Risen count (suc i) one.rest one.l2 one.climbing (omega arith)
          (omega (arith, one.height)) in
      record {
        l' = all.l';
        runs = one.runs count ∙ all.runs;
        ok = all.ok;
        steady = Steady-trans l one.l2 all.l' one.steady all.steady;
      }
