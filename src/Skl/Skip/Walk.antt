-- ===== src/Skl/Skip/Walk.antt =====
-- Walking over the skip list.
use badger_rs.Common.{ℕ, zero, suc, ◌<◌, Ordering}
use badger_rs.Common.{◌≡◌, refl, sym, ap, ◌∙◌, ◌≢◌, inl, inr, arith}
use badger_rs.Common.{true, false, Option, some}
use badger_rs.Common.{List, [], ◌∷◌}
use badger_rs.Common.{◌==◌, Bool-cases}
use badger_rs.Common.{eq→==, ==→eq}
use badger_rs.Common.{length, get_elem?, retain, All}
use badger_rs.Common.{All-weaken, length-retain, get_elem?-some}
use badger_rs.Common.{some_inj}
use badger_rs.Common.Keys.{key_cmp, key_eq, key_cmp_eq, key_cmp_trans}
use badger_rs.Common.Maps.{find}
use badger_rs.LevelHandler.Lookup.{IteratorItem}
use badger_rs.Merge.Ascend.{After, Ascends, find_key}
use badger_rs.Skl.Skip.{Node, SkipList, key_values_from, key_values, search_fuel}
use badger_rs.Skl.Skip.Order.{Has, ahead, IsList}
use badger_rs.Skl.Skip.Near.{next_first}
use badger_rs.Skl.Skip.Near.{behind, get_next_lem, closer}

-- The item of a node.
abbrev pub Listed : SkipList → IteratorItem → Type 0
Listed l i = (o : ℕ) × ((nd : Node) × (Has l o nd × ((nd.key, nd.value) ≡ i)))

module _ (l : SkipList) (ok : IsList l) where
  -- The items of the nodes behind a node, in order.
  record Walked (x : ℕ) (xd : Node) (run : Option (List IteratorItem)) : Type 0 where
    items : List IteratorItem
    runs : run ≡ some items
    ascends : Ascends false items
    after : x ≢ l.head → All (After false xd.key) items
    finds :
        (m : ℕ) (md : Node)
        → Has l m md
        → ahead l x xd md.key ≡ true
        → find_key md.key items ≡ some (md.key, md.value)
    only : All (Listed l) items

  walk :
      (fuel x n : ℕ) (xd : Node)
      → find x l.nodes ≡ some xd
      → get_elem? xd.tower 0 ≡ some n
      → length (retain (behind l ok [] x xd) l.nodes) < fuel
      → Walked x xd (key_values_from fuel l n)
  unfolding key_values_from
  walk zero x n xd at link enough = absurd (omega arith)
  walk (suc fuel) x n xd at link enough = elim (Bool-cases (n == 0)) [
    | inl z ↦ record {
      items = [];
      runs = rw z refl;
      ascends = tt;
      after = λ _. tt;
      finds = λ m md has fwd.
          let (s, (_, (e, (some_s, _)))) = ok.base x xd m md at has fwd in
          absurd (some_s (some_inj (sym e ∙ link) ∙ ==→eq n 0 z));
      only = tt;
    }
    | inr z ↦
        let (nn, (has, fwd)) = ok.links x xd 0 n at link (λ e. ground (arith, e, z)) in
        let (a, e) = get_elem?-some nn.tower 0 (omega (arith, ok.towers n nn has.0)) in
        let rest = walk fuel n a nn has.0 e (omega (arith, closer l ok [] x n xd nn has fwd)) in
        let behind_all : All (After false nn.key) rest.items = rest.after has.1 in
        record {
          items = (nn.key, nn.value) ∷ rest.items;
          runs = ground (arith, z, has.0, e, rest.runs);
          ascends = (behind_all, rest.ascends);
          after = λ proper.
              let lt : key_cmp xd.key nn.key ≡ Ordering.lt =
                ground (arith, fwd, proper, ==→eq x l.head) in
              (
                lt,
                All-weaken (After false nn.key) (After false xd.key) rest.items
                    (λ t f. key_cmp_trans xd.key nn.key t.0 lt f) behind_all,
              );
          finds = λ m md there ahead_m. elim (Bool-cases (key_eq nn.key md.key)) [
            | inl f ↦
                let same_key : nn.key ≡ md.key = key_cmp_eq nn.key md.key (ground (arith, f)) in
                let here : n ≡ m = ok.unique n nn m md has there same_key in
                let node : nn ≡ md =
                  some_inj (sym has.0 ∙ ap (λ t. find t l.nodes) here ∙ there.0) in
                rw f (ap (λ t. some (Node.key t, Node.value t)) node)
            | inr f ↦
                let le = next_first l ok [] x n xd at link m md nn there ahead_m has.0 in
                rw f (rest.finds m md there (ground (arith, f, le)))
          ];
          only = ((n, (nn, (has, refl))), rest.only);
        }
  ]

  -- All items of the list, in order.
  pub record Values : Type 0 where
    pub items : List IteratorItem
    pub runs : key_values l ≡ some items
    pub ascends : Ascends false items
    pub finds : (m : ℕ) (md : Node) → Has l m md → find_key md.key items ≡ some (md.key, md.value)
    pub only : All (Listed l) items

  -- The walk over the base level ends without a panic, and gives the keys and values of the nodes
  -- in strict order: those of every node, and no others. The links are in order.
  pub key_values-Values : Values
  unfolding key_values
  key_values-Values =
      let (hd, at) = ok.head_there in
      let (n, (step, link)) = get_next_lem l ok [] l.head 0 hd at (omega arith) in
      let all =
        walk (search_fuel l) l.head n hd at link
          (omega (arith, length-retain (behind l ok [] l.head hd) l.nodes)) in
      record {
        items = all.items;
        runs = rw step all.runs;
        ascends = all.ascends;
        finds = λ m md has. all.finds m md has (ground (arith, eq→== l.head l.head refl));
        only = all.only;
      }
