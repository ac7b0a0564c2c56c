-- ===== src/Skl/Skip/Room.antt =====
-- The arena under the skip list: what a new node and a new value take from it, and where the nodes
-- stand in it.
use badger_rs.Common.{ℕ, zero, suc, ◌+◌, ◌-◌, ◌^◌, ◌≤◌, ◌<◌}
use badger_rs.Common.{◌≡◌, refl, sym, ap, ◌∙◌, inl, inr, arith}
use badger_rs.Common.{true, false, some}
use badger_rs.Common.{List}
use badger_rs.Common.{ltb, ◌==◌, Bool-cases}
use badger_rs.Common.{none-some, bind-some, lt→ltb, ==→eq, u16, u32}
use badger_rs.Common.{length, get_elem?}
use badger_rs.Common.{some_inj}
use badger_rs.Common.Keys.{Key}
use badger_rs.Common.Maps.{find, put, find-put}
use badger_rs.Common.Bytes.{ByteOrder}
use mathlib.Core.Path.{subst}
use badger_rs.Common.Maps
use badger_rs.Value.{ValueStruct, into, size}
use badger_rs.Value
use badger_rs.Value.RoundTrip.{length-into}
use badger_rs.Skl.{Arena, alloc, free_count, put_key, put_val, put_node, get_key, get_val}
use badger_rs.Skl.Memory.{IsArena, put_key-room, get_key-put_key, get_val-put_val}
use badger_rs.Skl.Skip.{Node, SkipList, get_next}
use badger_rs.Skl.Skip.Insert.{
  new_node, set_next, cas_next_offset, store_value, place_at, link_levels, add_node,
}

-- The arena is well formed, and every node stands below its free space.
pub record InArena (a : Arena) (l : SkipList) : Type 0 where
  pub arena : IsArena a
  pub below : (o : ℕ) (nd : Node) → find o l.nodes ≡ some nd → o < a.head

module _ (P : ℕ → Type 0) where
  abbrev pub Within : SkipList → Type 0
  Within l = (o : ℕ) (nd : Node) → find o l.nodes ≡ some nd → P o

  put-Within :
      (l : SkipList) (o : ℕ) (nd : Node)
      → Within l
      → P o
      → Within (record l { nodes = Maps.put o nd l.nodes })
  put-Within l o nd w p j jd e = elim (Bool-cases (o == j)) [
    | inl f ↦ subst P (==→eq o j f) p
    | inr f ↦ w j jd (sym (find-put o j nd l.nodes ∙ rw f refl) ∙ e)
  ]

  pub store-Within :
      (l l1 : SkipList) (o : ℕ) (v : ValueStruct)
      → store_value l o v ≡ some l1
      → Within l
      → Within l1
  unfolding store_value
  store-Within l l1 o v e w =
      let (nd, (at, made)) = bind-some (find o l.nodes) _ l1 e in
      subst Within (some_inj made) (put-Within l o _ w (w o nd at))

  next-Within :
      (l l1 : SkipList) (o level next : ℕ)
      → set_next l o level next ≡ some l1
      → Within l
      → Within l1
  unfolding set_next
  next-Within l l1 o level next e w =
      let (nd, (at, e1)) = bind-some (find o l.nodes) _ l1 e in
      let (_, (_, made)) = bind-some (get_elem? nd.tower level) _ l1 e1 in
      subst Within (some_inj made) (put-Within l o _ w (w o nd at))

  cas-Within :
      (l l1 : SkipList) (o level old next : ℕ)
      → cas_next_offset l o level old next ≡ some l1
      → Within l
      → Within l1
  unfolding cas_next_offset
  cas-Within l l1 o level old next e w =
      let (now, (_, e1)) = bind-some (get_next l o level) _ l1 e in
      elim (Bool-cases (now == old)) [
        | inl f ↦ next-Within l l1 o level next (rw f at e1) w
        | inr f ↦ absurd (none-some l1 (rw f at e1))
      ]

  pub link-Within :
      (key : Key) (x i count : ℕ) (places : List (ℕ × ℕ)) (l l1 : SkipList)
      → link_levels key x i count places l ≡ some l1
      → Within l
      → Within l1
  unfolding link_levels
  link-Within key x i zero places l l1 e w = subst Within (some_inj e) w
  link-Within key x i (suc count) places l l1 e w =
      let (p, (_, e1)) = bind-some (place_at l key i places) _ l1 e in
      let (m, (f, e2)) = bind-some (set_next l x i p.0.1) _ l1 e1 in
      let (n, (g, e3)) = bind-some (cas_next_offset m p.0.0 i p.0.1 x) _ l1 e2 in
      link-Within key x (suc i) count p.1 n l1 e3
        (cas-Within m n p.0.0 i p.0.1 x g (next-Within l m x i p.0.1 f w))

  pub add-Within :
      (l : SkipList) (x height : ℕ) (key : Key) (v : ValueStruct)
      → Within l
      → P x
      → Within (add_node l x height key v)
  unfolding add_node
  add-Within l x height key v w p j jd e = put-Within l x _ w p j jd e

module _ ⦃bo : ByteOrder⦄ where
  -- Key and value can be counted in 16 bits, and there is room for them and for a node.
  pub record Room (align_size : ℕ) (a : Arena) (key : Key) (v : ValueStruct) : Type 0 where
    pub key_fits : length key < 2 ^ 16
    pub in_range : Value.InRange v
    pub value_fits : size v < 2 ^ 16
    pub space : a.head + length key + size v + align_size < a.tail

  -- What a value takes from the arena, and how it is read back.
  pub record ValuePut (a : Arena) (v : ValueStruct) : Type 0 where
    pub place : ℕ
    pub count : ℕ
    pub a' : Arena
    pub runs : put_val a v ≡ some ((place, count), a')
    pub ok : IsArena a'
    pub read : get_val a' place count ≡ some v
    pub short : count < 2 ^ 16
    pub head : a'.head ≡ a.head
    pub tail : a'.tail ≡ a.tail - size v
    pub before : (off n : ℕ) → a.tail ≤ off → get_key a' off n ≡ get_key a off n

  pub put_val-ValuePut :
      (a : Arena) (v : ValueStruct)
      → IsArena a
      → Value.InRange v
      → size v < 2 ^ 16
      → a.head + size v < a.tail
      → ValuePut a v
  put_val-ValuePut a v i r f room =
      let len = length-into v in
      let (a', (e, (h, t))) = put_key-room a (into v) i (omega (arith, len, room)) in
      let short : length (into v) < 2 ^ 16 = omega (arith, len, f) in
      let got = get_key-put_key a a' (into v) (a.tail - length (into v)) i short e in
      let runs : put_val a v ≡ some ((a.tail - length (into v), u16 (length (into v))), a') =
        unfold put_val in rw e refl in
      record {
        place = a.tail - length (into v);
        count = u16 (length (into v));
        a' = a';
        runs = runs;
        ok = got.0;
        read = get_val-put_val a a' v _ _ i r f runs;
        short = omega arith;
        head = h;
        tail = omega (arith, t, len);
        before = got.1.1;
      }

  put_node-room :
      (align_size : ℕ) (a : Arena) (x : ℕ)
      → IsArena a
      → a.head ≡ x
      → a.head + align_size < a.tail
      → put_node align_size a ≡ some (x, record a { head = a.head + align_size })
  unfolding put_node alloc free_count
  put_node-room align_size a x i e room =
      let there : ltb a.head a.tail ≡ true = lt→ltb _ _ (omega (arith, room)) in
      let free : ltb align_size (a.tail - a.head) ≡ true = lt→ltb _ _ (omega (arith, room)) in
      let here : u32 a.head ≡ x = omega (arith, e, room, i.inside, i.counted) in
      rw (there, free, here) refl

  new_node_runs :
      (align_size : ℕ) (a a1 a2 a3 : Arena) (key : Key) (v : ValueStruct)
      (key_offset value_offset count : ℕ)
      → put_key a key ≡ some (key_offset, a1)
      → put_val a1 v ≡ some ((value_offset, count), a2)
      → put_node align_size a2 ≡ some (a.head, a3)
      → (a.head == 0) ≡ false
      → get_key a3 key_offset (u16 (length key)) ≡ some key
      → get_val a3 value_offset count ≡ some v
      → new_node align_size a key v ≡ some ((a.head, (key, v)), a3)
  unfolding new_node
  new_node_runs align_size a a1 a2 a3 key v key_offset value_offset count e f g h i j =
      rw e (rw f (rw g (rw h (rw i (rw j refl)))))

  pub record Built (align_size : ℕ) (a : Arena) (key : Key) (v : ValueStruct) : Type 0 where
    pub a' : Arena
    pub runs : new_node align_size a key v ≡ some ((a.head, (key, v)), a')
    pub ok : IsArena a'
    pub head : a'.head ≡ a.head + align_size

  pub new_node-Built :
      (align_size : ℕ) (a : Arena) (key : Key) (v : ValueStruct)
      → IsArena a
      → Room align_size a key v
      → Built align_size a key v
  new_node-Built align_size a key v i r =
      let (a1, (e1, (h1, t1))) = put_key-room a key i (omega (arith, r.space)) in
      let got = get_key-put_key a a1 key (a.tail - length key) i r.key_fits e1 in
      let p =
        put_val-ValuePut a1 v got.0 r.in_range r.value_fits (omega (arith, h1, t1, r.space)) in
      let a3 : Arena = record p.a' { head = p.a'.head + align_size } in
      let head : p.a'.head ≡ a.head = p.head ∙ h1 in
      let room : p.a'.head + align_size < p.a'.tail = omega (arith, head, p.tail, t1, r.space) in
      let alloc : put_node align_size p.a' ≡ some (a.head, a3) =
        put_node-room align_size p.a' a.head p.ok head room in
      let proper : (a.head == 0) ≡ false = ground (arith, i.behind_zero) in
      let same : get_key a3 (a.tail - length key) (u16 (length key)) ≡ some key =
        unfold get_key in
        (unfold get_key in p.before (a.tail - length key) (u16 (length key)) (omega (arith, t1)))
        ∙ ap (get_key a1 (a.tail - length key)) (omega (arith, r.key_fits))
        ∙ got.1.0 in
      let read : get_val a3 p.place p.count ≡ some v = unfold get_val in unfold get_key in p.read in
      record {
        a' = a3;
        runs = new_node_runs align_size a a1 p.a' a3 key v _ _ _ e1 p.runs alloc proper same read;
        ok = record {
          sized = p.ok.sized;
          behind_zero = omega (arith, p.ok.behind_zero);
          ends = omega (arith, room);
          inside = p.ok.inside;
          counted = p.ok.counted;
        };
        head = omega (arith, head);
      }
