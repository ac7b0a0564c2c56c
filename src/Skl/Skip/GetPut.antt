-- ===== src/Skl/Skip/GetPut.antt =====
-- Putting a key into the skip list and looking keys up afterwards.
use badger_rs.Common.{ℕ, ◌≤◌, ◌<◌}
use badger_rs.Common.{◌≡◌, refl, sym, ap, ◌∙◌, ◌≢◌, inl, inr, arith}
use badger_rs.Common.{Option, none, some}
use badger_rs.Common.{List, [], ◌∷◌}
use badger_rs.Common.{◌==◌, Bool-cases, Option-cases}
use badger_rs.Common.{none-some, eq→==, ==→eq, u16}
use badger_rs.Common.{length, get_elem?, replicate}
use badger_rs.Common.{length-replicate, get_elem?-some}
use badger_rs.Common.{some_inj}
use badger_rs.Common.Keys.{Key, key_cmp_refl, key_cmp_eq}
use badger_rs.Common.Maps.{find}
use badger_rs.Common.Bytes.{ByteOrder}
use badger_rs.Value.{ValueStruct, default}
use badger_rs.Skl.Skip.{max_height, Node, SkipList, get}
use badger_rs.Skl.Skip.Order.{Has, IsList}
use badger_rs.Skl.Skip.Insert.{
  new, _put, set_value, store_value, add_node, link_levels, search_levels,
}
use badger_rs.Skl.Skip.Get.{get-Got, Answer}
use badger_rs.Skl.Skip.Enter.{replicate_zero}
use badger_rs.Skl.Skip.Stored.{Stored, put_nodes, put_nodes-Stored}
use badger_rs.Skl.{Arena}
use badger_rs.Skl.Skip.Room.{
  InArena, Room, put_val-ValuePut, new_node-Built, store-Within, link-Within, add-Within,
}

-- The new list has its head alone, without links.
pub only_head :
    (head o : ℕ) (nd : Node)
    → find o (new head).nodes ≡ some nd
    → (head ≡ o) × (nd.tower ≡ replicate max_height 0)
unfolding new find
only_head head o nd e = elim (Bool-cases (head == o)) [
  | inl f ↦ (==→eq head o f, sym (ap Node.tower (some_inj (rw f at e))))
  | inr f ↦ absurd (none-some nd (rw f at e))
]

-- A new list is in order.
pub new-IsList : (head : ℕ) → head ≢ 0 → IsList (new head)
unfolding new
new-IsList head proper =
    let alone : (m : ℕ) (md : Node) → Has (new head) m md → ⊥ =
      λ m md has. has.1 (sym (only_head head m md has.0).0) in
    record {
      low = omega arith;
      high = omega arith;
      head_proper = proper;
      null = unfold find in ground (arith, ==→eq head 0, proper);
      head_there = (
        record { key = []; value = default; tower = replicate max_height 0 },
        unfold find in ground (arith, eq→== head head refl),
      );
      unique = λ o nd m md x y e. absurd (alone o nd x);
      towers =
          λ o nd e. ap length (only_head head o nd e).1 ∙ length-replicate {A = ℕ} max_height 0;
      above = λ hd level e up lw.
          let (m, f) = get_elem?-some (replicate max_height 0) level lw in
          let z : m ≡ 0 = replicate_zero max_height level m f in
          ap (λ t. get_elem? t level) (only_head head head hd e).1 ∙ f ∙ ap (λ t. some t) z;
      links = λ o nd level n e link some_n. absurd (
          some_n (
            replicate_zero max_height level n
              (ap (λ t. get_elem? t level) (sym (only_head head o nd e).1) ∙ link)));
      base = λ o nd m md e has fwd. absurd (alone m md has);
    }

module _ (l : SkipList) (ok : IsList l) (key : Key) where
  -- A lookup answers the value of the node that has the key.
  Answer-node :
      (a : Option ValueStruct) (o : ℕ) (nd : Node)
      → get l key ≡ some a
      → Answer l key a
      → Has l o nd
      → nd.key ≡ key
      → get l key ≡ some (some nd.value)
  Answer-node none o nd e right has same =
      absurd (ground (arith, right o nd has, same, key_cmp_refl key))
  Answer-node (some w) o nd e (o2, (nd2, (has2, (f, val)))) has same =
      let key2 : nd2.key ≡ key = key_cmp_eq nd2.key key (ground (arith, f)) in
      let here : o2 ≡ o = ok.unique o2 nd2 o nd has2 has (key2 ∙ sym same) in
      let node : nd2 ≡ nd = some_inj (sym has2.0 ∙ ap (λ t. find t l.nodes) here ∙ has.0) in
      e ∙ ap (λ t. some (some t)) (sym val ∙ ap Node.value node)

  get-node : (o : ℕ) (nd : Node) → Has l o nd → nd.key ≡ key → get l key ≡ some (some nd.value)
  get-node o nd has same =
      let r = get-Got l key ok in Answer-node r.answer o nd r.runs r.right has same

  Answer-absent :
      (a : Option ValueStruct)
      → get l key ≡ some a
      → Answer l key a
      → ((m : ℕ) (md : Node) → Has l m md → md.key ≢ key)
      → get l key ≡ some none
  Answer-absent none e right h = e
  Answer-absent (some w) e (o, (nd, (has, (f, _)))) h =
      absurd (h o nd has (key_cmp_eq nd.key key (ground (arith, f))))

  -- It answers nothing when no node has the key.
  get-absent : ((m : ℕ) (md : Node) → Has l m md → md.key ≢ key) → get l key ≡ some none
  get-absent h = let r = get-Got l key ok in Answer-absent r.answer r.runs r.right h

-- What `_put` of a key did: it answered, the list stands in the arena, lookups of the key answer the
-- value, and lookups of the others answer what they did.
pub record GetPut (l : SkipList) (key : Key) (v : ValueStruct) (run : Option (Arena × SkipList))
    : Type 0 where
  pub a' : Arena
  pub l' : SkipList
  pub runs : run ≡ some (a', l')
  pub ok : IsList l'
  pub memory : InArena a' l'
  pub got_key : get l' key ≡ some (some v)
  pub get_other : (k : Key) → k ≢ key → get l' k ≡ get l k

other :
    (l : SkipList) (key : Key) (v : ValueStruct) (run : Option SkipList) (k : Key)
    (a : Option ValueStruct)
    → IsList l
    → (s : Stored l key v run) → k ≢ key
    → get l k ≡ some a
    → Answer l k a
    → get s.l' k ≡ get l k
other l key v run k none ok s d e right =
    get-absent s.l' s.ok k (λ m md has same.
      let (jd, (has0, (k0, _))) = s.back m md has (λ f. d (sym same ∙ f)) in
      ground (arith, right m jd has0, sym k0 ∙ same, key_cmp_refl k))
    ∙ sym e
other l key v run k (some w) ok s d e (o, (nd, (has, (f, val)))) =
    let here : nd.key ≡ k = key_cmp_eq nd.key k (ground (arith, f)) in
    let (nd', (has', (k', w'))) = s.forth o nd has (λ g. d (sym here ∙ g)) in
    get-node s.l' s.ok k o nd' has' (k' ∙ here) ∙ ap (λ t. some (some t)) (w' ∙ val) ∙ sym e

module _ ⦃bo : ByteOrder⦄ where
  -- The run of `_put`, when what it does to the nodes is known.
  record Ran (l1 : SkipList) (run : Option (Arena × SkipList)) : Type 0 where
    a' : Arena
    runs : run ≡ some (a', l1)
    memory : InArena a' l1

  module _ (l l1 : SkipList) (a : Arena) (align_size height : ℕ) (key : Key) (v : ValueStruct)
      (m : InArena a l) (r : Room align_size a key v)
      (done : put_nodes a.head height l key v ≡ some l1) where
    over_value :
        (o : ℕ)
        → search_levels l key l.height l.head ((l.head, 0) ∷ []) ≡ some (inl o)
        → Ran l1 (_put align_size height a l key v)
    unfolding _put set_value put_nodes
    over_value o e =
        let p = put_val-ValuePut a v m.arena r.in_range r.value_fits (omega (arith, r.space)) in
        let stored : store_value l o v ≡ some l1 = rw e at done in
        let count : u16 p.count ≡ p.count = omega (arith, p.short) in
        record {
          a' = p.a';
          runs = rw e (rw p.runs (rw count (rw p.read (rw stored refl))));
          memory = record {
            arena = p.ok;
            below = λ o1 nd at.
                rw p.head (store-Within (λ k. k < a.head) l l1 o v stored m.below o1 nd at);
          };
        }

    new_place :
        (places : List (ℕ × ℕ))
        → search_levels l key l.height l.head ((l.head, 0) ∷ []) ≡ some (inr places)
        → 0 < align_size
        → Ran l1 (_put align_size height a l key v)
    unfolding _put put_nodes
    new_place places e some_size =
        let n = new_node-Built align_size a key v m.arena r in
        let l0 : SkipList = add_node l a.head height key v in
        let linked : link_levels key a.head 0 height places l0 ≡ some l1 = rw e at done in
        let behind : (k : ℕ) → k < a.head → k < n.a'.head = λ k h. omega (arith, n.head, h) in
        record {
          a' = n.a';
          runs = rw e (rw n.runs (rw linked refl));
          memory = record {
            arena = n.ok;
            below =
                link-Within (λ k. k < n.a'.head) key a.head 0 height places l0 l1 linked
                  (add-Within (λ k. k < n.a'.head) l a.head height key v
                    (λ o nd at. behind o (m.below o nd at)) (omega (arith, n.head, some_size)));
          };
        }

    ran : 0 < align_size → Ran l1 (_put align_size height a l key v)
    unfolding put_nodes
    ran some_size = elim (Option-cases (search_levels l key l.height l.head ((l.head, 0) ∷ []))) [
      | inl e ↦ absurd (none-some l1 (rw e at done))
      | inr (inl o, e) ↦ over_value o e
      | inr (inr places, e) ↦ new_place places e some_size
    ]

  -- A node that is put where the arena is free is new.
  free_place : (l : SkipList) (a : Arena) → InArena a l → find a.head l.nodes ≡ none
  free_place l a m = elim (Option-cases (find a.head l.nodes)) [
    | inl e ↦ e
    | inr (nd, e) ↦ absurd (omega (arith, m.below a.head nd e))
  ]

  -- Putting a key ends without a panic and leaves a list in order, in which looking the key up
  -- answers the value, and looking any other key up answers what it did before. The links are in
  -- order, the nodes stand below the free space of a well-formed arena, and they do so afterwards;
  -- the key and the encoded value can be counted in 16 bits, the fields of the value are in range,
  -- the arena has room for the two and a node, which takes some space, and the height is one that
  -- is drawn.
  pub _put-GetPut :
      (l : SkipList) (a : Arena) (key : Key) (v : ValueStruct) (align_size height : ℕ)
      → IsList l
      → InArena a l
      → Room align_size a key v
      → 0 < align_size
      → 1 ≤ height
      → height ≤ max_height
      → GetPut l key v (_put align_size height a l key v)
  _put-GetPut l a key v align_size height ok m r some_size low high =
      let proper : a.head ≢ 0 = λ e. omega (arith, m.arena.behind_zero, e) in
      let s = put_nodes-Stored l ok key v a.head height (free_place l a m) proper low high in
      let it = ran l s.l' a align_size height key v m r s.runs some_size in
      record {
        a' = it.a';
        l' = s.l';
        runs = it.runs;
        ok = s.ok;
        memory = it.memory;
        got_key =
            get-node s.l' s.ok key s.o s.node s.has s.same_key
            ∙ ap (λ t. some (some t)) s.same_value;
        get_other = λ k d.
            let g = get-Got l k ok in
            other l key v (put_nodes a.head height l key v) k g.answer ok s d g.runs g.right;
      }
