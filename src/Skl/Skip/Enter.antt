-- ===== src/Skl/Skip/Enter.antt =====
-- A new node enters the base level of the skip list.
use badger_rs.Common.{ℕ, zero, suc}
use badger_rs.Common.{◌≡◌, refl, sym, ap, ◌∙◌, ◌≢◌, inl, inr, arith}
use badger_rs.Common.{false, none, some}
use badger_rs.Common.{ltb, ◌==◌, if◌then◌else◌, Bool-cases}
use badger_rs.Common.{none-some, eq→==, ==→eq}
use badger_rs.Common.{get_elem?, set, replicate}
use badger_rs.Common.{length-set}
use badger_rs.Common.{some_inj}
use badger_rs.Common.Keys.{Key}
use badger_rs.Common.Maps.{find, put, find-put}
use badger_rs.Common.Maps
use badger_rs.Value.{ValueStruct}
use badger_rs.Merge.Invariant.{get-set}
use badger_rs.Skl.Skip.{max_height, Node, SkipList}
use badger_rs.Skl.Skip.Order.{IsList}
use badger_rs.Skl.Skip.Splice.{Gap}
use badger_rs.Skl.Skip.Link.{Kept}

pub replicate_zero : (n i m : ℕ) → get_elem? (replicate n 0) i ≡ some m → m ≡ 0
replicate_zero zero i m e = absurd (none-some m e)
replicate_zero (suc n) zero m e = sym (some_inj e)
replicate_zero (suc n) (suc i) m e = replicate_zero n i m e

module _ (l : SkipList) (ok : IsList l) (key : Key) (v : ValueStruct) (x height pre next : ℕ)
    (fresh : find x l.nodes ≡ none) (x_proper : x ≢ 0) (g : Gap l ok key 0 pre next) where
  abbrev pub first_node : Node
  first_node = record { key = key; value = v; tower = set (replicate max_height 0) 0 next }

  abbrev pub pre_node : Node
  pre_node = record g.node { tower = set g.node.tower 0 x }

  abbrev pub entered : SkipList
  entered = record {
    height = if ltb l.height height then height else l.height;
    head = l.head;
    nodes = Maps.put pre pre_node (
        Maps.put x first_node
          (Maps.put x (record { key = key; value = v; tower = replicate max_height 0 }) l.nodes));
  }

  apart : (x == pre) ≡ false
  apart = elim (Bool-cases (x == pre)) [
    | inr e ↦ e
    | inl e ↦
        absurd (none-some g.node (sym fresh ∙ ap (λ t. find t l.nodes) (==→eq x pre e) ∙ g.there))
  ]

  pub find-entered :
      (j : ℕ)
      → find j entered.nodes
        ≡ (if pre == j then some pre_node else if x == j then some first_node else find j l.nodes)
  find-entered j =
      let blank : Node = record { key = key; value = v; tower = replicate max_height 0 } in
      ground (
        arith,
        find-put pre j pre_node (Maps.put x first_node (Maps.put x blank l.nodes)),
        find-put x j first_node (Maps.put x blank l.nodes),
        find-put x j blank l.nodes,
      )

  pub found_new : find x entered.nodes ≡ some first_node
  found_new = find-entered x ∙ ground (arith, apart, ==→eq pre x, eq→== x x refl, eq→== x pre)

  old_Kept : (j : ℕ) (jd : Node) → (pre == j) ≡ false → Kept pre 0 x j jd jd
  old_Kept j jd e = record {
    key = refl;
    value = refl;
    size = refl;
    tower = λ lv. ground (arith, e);
  }

  pre_Kept : Kept pre 0 x pre g.node pre_node
  pre_Kept = record {
    key = refl;
    value = refl;
    size = length-set g.node.tower 0 x;
    tower =
        λ lv. ground (arith, get-set g.node.tower 0 lv x, g.link, ==→eq 0 lv, eq→== pre pre refl);
  }

  pub forth :
      (j : ℕ) (jd : Node)
      → find j l.nodes ≡ some jd
      → (jd' : Node) × ((find j entered.nodes ≡ some jd') × Kept pre 0 x j jd jd')
  forth j jd e = elim (Bool-cases (pre == j)) [
    | inl f ↦
        let same : pre ≡ j = ==→eq pre j f in
        let here : g.node ≡ jd = some_inj (sym g.there ∙ ap (λ t. find t l.nodes) same ∙ e) in
        (pre_node, (find-entered j ∙ rw f refl, rw (← same, ← here) pre_Kept))
    | inr f ↦ elim (Bool-cases (x == j)) [
      | inl h ↦ absurd (none-some jd (sym fresh ∙ ap (λ t. find t l.nodes) (==→eq x j h) ∙ e))
      | inr h ↦ (jd, (find-entered j ∙ rw (f, h) e, old_Kept j jd f))
    ]
  ]

  -- A node of the new list is the new one, or an old one with perhaps a new link.
  pub data View (j : ℕ) (jd' : Node) : Type 0 where
    new_one : j ≡ x → jd' ≡ first_node → View j jd'
    old_one : (jd : Node) → find j l.nodes ≡ some jd → Kept pre 0 x j jd jd' → View j jd'

  pub view : (j : ℕ) (jd' : Node) → find j entered.nodes ≡ some jd' → View j jd'
  view j jd' e = elim (Bool-cases (pre == j)) [
    | inl f ↦
        let same : pre ≡ j = ==→eq pre j f in
        let here : pre_node ≡ jd' = some_inj (sym (find-entered j ∙ rw f refl) ∙ e) in
        old_one g.node (rw (← same) g.there) (rw (← same, ← here) pre_Kept)
    | inr f ↦ elim (Bool-cases (x == j)) [
      | inl h ↦ new_one (sym (==→eq x j h)) (some_inj (sym e ∙ find-entered j ∙ rw (f, h) refl))
      | inr h ↦ old_one jd' (sym (find-entered j ∙ rw (f, h) refl) ∙ e) (old_Kept j jd' f)
    ]
  ]
