-- ===== src/Skl/Skip/Insert.antt =====
-- Inserting into the skip list (`SkipList::new` and `_put` of src/skl/skip.rs, `Node::new` and
-- `Node::set_value` of src/skl/node.rs), over the arena. The height of the new node, which the source
-- draws at random, and the size of a node are arguments. A node keeps its key and its value as they
-- are read from the arena behind their writing, where nothing writes again; a value that was cut so
-- short that its reading panics is a panic here already. A compare and exchange that fails, which
-- takes another thread, is `none`.
use badger_rs.Common.{ℕ, zero, suc}
use badger_rs.Common.{◌⊎◌, inl, inr}
use badger_rs.Common.{not, Option, none, some}
use badger_rs.Common.{List, [], ◌∷◌}
use badger_rs.Common.{ltb, ◌==◌, if◌then◌else◌, ◌>>=◌, ◌>>◌}
use badger_rs.Common.{guard, u16}
use badger_rs.Common.{length, get_elem?, set, replicate}
use badger_rs.Common.Keys.{Key}
use badger_rs.Common.Maps.{find, put}
use badger_rs.Common.Bytes.{ByteOrder}
use badger_rs.Common.Maps
use badger_rs.Skl.{Arena, new_arena, put_key, put_val, put_node, get_key, get_val}
use badger_rs.Value.{ValueStruct, default}
use badger_rs.Skl.Skip.{max_height, SkipList, get_next, find_splice_for_level, search_fuel}

-- The list of `SkipList::new`, with the offset of the head.
unfoldable pub new : ℕ → SkipList
new head = record {
  height = 1;
  head = head;
  nodes = (head, record { key = []; value = default; tower = replicate max_height 0 }) ∷ [];
}

-- `self.tower[level].store(next)`
unfoldable pub set_next : SkipList → ℕ → ℕ → ℕ → Option SkipList
set_next l o level next = do
  node ← find o l.nodes
  _ ← get_elem? node.tower level
  some (record l { nodes = Maps.put o (record node { tower = set node.tower level next }) l.nodes })

unfoldable pub cas_next_offset : SkipList → ℕ → ℕ → ℕ → ℕ → Option SkipList
cas_next_offset l o level old new = do
  next ← get_next l o level
  if next == old then set_next l o level new else none

-- `self.value.store(value)`
unfoldable pub store_value : SkipList → ℕ → ValueStruct → Option SkipList
store_value l o v = do
  node ← find o l.nodes
  some (record l { nodes = Maps.put o (record node { value = v }) l.nodes })

-- The places on the levels below, the base level first, or the node that has the key.
unfoldable pub search_levels : SkipList → Key → ℕ → ℕ → List (ℕ × ℕ) → Option (ℕ ⊎ List (ℕ × ℕ))
search_levels l key zero cur places = some (inr places)
search_levels l key (suc i) cur places = do
  (pre, next) ← find_splice_for_level (search_fuel l) l key cur i
  if pre == next then some (inl pre) else search_levels l key i pre ((pre, next) ∷ places)

-- Where the new node goes on a level: as it was searched, or for a level above those, from the head.
unfoldable pub place_at : SkipList → Key → ℕ → List (ℕ × ℕ) → Option ((ℕ × ℕ) × List (ℕ × ℕ))
place_at l key i (place ∷ places) = some (place, places)
place_at l key i [] = do
  guard (ltb 1 i)
  (pre, next) ← find_splice_for_level (search_fuel l) l key l.head i
  guard (not (pre == next))
  some ((pre, next), [])

-- `for i in 0..height`, from `i` on, so many levels.
unfoldable pub link_levels : Key → ℕ → ℕ → ℕ → List (ℕ × ℕ) → SkipList → Option SkipList
link_levels key x i zero places l = some l
link_levels key x i (suc count) places l = do
  ((pre, next), rest) ← place_at l key i places
  l1 ← set_next l x i next
  l2 ← cas_next_offset l1 pre i next x
  link_levels key x (suc i) count rest l2

-- The new node, with its key and its value as it has them, not yet linked, and the height of the
-- list.
unfoldable pub add_node : SkipList → ℕ → ℕ → Key → ValueStruct → SkipList
add_node l x height key v = record {
  height = if ltb l.height height then height else l.height;
  head = l.head;
  nodes = Maps.put x (record { key = key; value = v; tower = replicate max_height 0 }) l.nodes;
}

-- The offset of the new node, and the key and the value that are read from where it says.
module _ ⦃bo : ByteOrder⦄ where
  unfoldable pub new_node :
      ℕ → Arena → Key → ValueStruct → Option ((ℕ × (Key × ValueStruct)) × Arena)
  new_node align_size a key v = do
    (key_offset, a1) ← put_key a key
    ((value_offset, value_size), a2) ← put_val a1 v
    (offset, a3) ← put_node align_size a2
    guard (not (offset == 0))
    stored_key ← get_key a3 key_offset (u16 (length key))
    stored ← get_val a3 value_offset value_size
    some ((offset, (stored_key, stored)), a3)

  unfoldable pub set_value : Arena → SkipList → ℕ → ValueStruct → Option (Arena × SkipList)
  set_value a l o v = do
    ((value_offset, value_size), a1) ← put_val a v
    stored ← get_val a1 value_offset (u16 value_size)
    l1 ← store_value l o stored
    some (a1, l1)

  -- `SkipList::new`
  unfoldable pub new_list : ℕ → ℕ → Option (Arena × SkipList)
  new_list align_size arena_size = do
    a ← new_arena arena_size
    ((head, _), a1) ← new_node align_size a [] default
    some (a1, new head)

  unfoldable pub _put : ℕ → ℕ → Arena → SkipList → Key → ValueStruct → Option (Arena × SkipList)
  _put align_size height a l key v = do
    searched ← search_levels l key l.height l.head ((l.head, 0) ∷ [])
    elim searched [
      | inl found_at ↦ set_value a l found_at v
      | inr places ↦ do
        ((x, (stored_key, stored)), a1) ← new_node align_size a key v
        l1 ← link_levels key x 0 height places (add_node l x height stored_key stored)
        some (a1, l1)
    ]
