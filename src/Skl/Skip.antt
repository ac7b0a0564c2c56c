-- ===== src/Skl/Skip.antt =====
-- The skip list (src/skl/skip.rs), as one thread sees it. A pointer to a node is its offset in the
-- arena, and offset 0 is the null pointer. A node holds its key and value themselves, which the source
-- keeps at the offsets in the node (`Skl`). An outer `none` is an index out of range, a pointer that
-- leads nowhere, or no fuel left.
use badger_rs.Common.{ℕ, zero, suc, ◌+◌, ◌-◌, Ordering}
use badger_rs.Common.{Bool, true, false, not, Option, none, some}
use badger_rs.Common.{List, [], ◌∷◌}
use badger_rs.Common.{◌==◌, if◌then◌else◌, ◌>>=◌, ◌>>◌}
use badger_rs.Common.{length, get_elem?}
use badger_rs.Common.Keys.{Key, key_cmp}
use badger_rs.Common.Slices.{found}
use badger_rs.Common.Maps.{is_some, find}
use badger_rs.Value.{ValueStruct}
use badger_rs.LevelHandler.Lookup.{IteratorItem}
pub mod Order
pub mod Near
pub mod Find
pub mod Get
pub mod Insert
pub mod Splice
pub mod Link
pub mod Keep
pub mod Enter
pub mod Entered
pub mod Climb
pub mod Rise
pub mod Value
pub mod Put
pub mod Stored
pub mod GetPut
pub mod Room
pub mod Fresh
pub mod Iter
pub mod Walk
pub mod First

abbrev pub max_height : ℕ
max_height = 20

pub record Node : Type 0 where
  pub key : Key
  pub value : ValueStruct
  pub tower : List ℕ

pub record SkipList : Type 0 where
  pub height : ℕ
  pub head : ℕ
  pub nodes : List (ℕ × Node)

-- A pointer that may be null.
abbrev pub nullable : ℕ → Option ℕ
nullable n = if n == 0 then none else some n

-- `get_next`, with 0 for no node
unfoldable pub get_next : SkipList → ℕ → ℕ → Option ℕ
get_next l nd level = do node ← find nd l.nodes; get_elem? node.tower level

unfoldable pub key_at : SkipList → ℕ → Option Key
key_at l nd = do node ← find nd l.nodes; some node.key

-- A node that was found, but never the head.
abbrev pub not_head : SkipList → ℕ → Option ℕ
not_head l nd = if nd == l.head then none else some nd

-- What `find_near` answers on the base level for a key that lies between two nodes.
abbrev pub between : SkipList → Bool → ℕ → ℕ → Option ℕ
between l less x next = if less then not_head l x else nullable next

unfoldable pub find_near_from : ℕ → SkipList → Key → Bool → Bool → ℕ → ℕ → Option (Option ℕ × Bool)
find_near_from zero l key less allow_equal x level = none
find_near_from (suc fuel) l key less allow_equal x level = do
  next ← get_next l x level
  if next == 0
      then elim level [
        | zero ↦ some (between l less x 0, false)
        | suc lower ↦ find_near_from fuel l key less allow_equal x lower
      ]
      else (do
        next_key ← key_at l next
        elim (key_cmp key next_key) [
          | Ordering.gt ↦ find_near_from fuel l key less allow_equal next level
          | Ordering.eq ↦
              if allow_equal
              then some (some next, true)
              else if not less
              then (do after ← get_next l next 0; some (nullable after, false))
              else elim level [
                | zero ↦ some (not_head l x, false)
                | suc lower ↦ find_near_from fuel l key less allow_equal x lower
              ]
          | Ordering.lt ↦ elim level [
            | zero ↦ some (between l less x next, false)
            | suc lower ↦ find_near_from fuel l key less allow_equal x lower
          ]
        ])

-- A search from the head takes a step for each level and for each node at most.
abbrev pub search_fuel : SkipList → ℕ
search_fuel l = suc (l.height + length l.nodes)

unfoldable pub find_near : SkipList → Key → Bool → Bool → Option (Option ℕ × Bool)
find_near l key less allow_equal =
    find_near_from (search_fuel l) l key less allow_equal l.head (l.height - 1)

unfoldable pub find_splice_for_level : ℕ → SkipList → Key → ℕ → ℕ → Option (ℕ × ℕ)
find_splice_for_level zero l key before level = none
find_splice_for_level (suc fuel) l key before level = do
  next ← get_next l before level
  if next == 0 then some (before, 0) else (do
    next_key ← key_at l next
    elim (key_cmp key next_key) [
      | Ordering.eq ↦ some (next, next)
      | Ordering.lt ↦ some (before, next)
      | Ordering.gt ↦ find_splice_for_level fuel l key next level
    ])

unfoldable pub find_last_from : ℕ → SkipList → ℕ → ℕ → Option (Option ℕ)
find_last_from zero l n level = none
find_last_from (suc fuel) l n level = do
  next ← get_next l n level
  if next == 0
      then elim level [ zero ↦ some (not_head l n) | suc lower ↦ find_last_from fuel l n lower ]
      else find_last_from fuel l next level

unfoldable pub find_last : SkipList → Option (Option ℕ)
find_last l = find_last_from (search_fuel l) l l.head (l.height - 1)

unfoldable pub empty : SkipList → Option Bool
empty l = do last ← find_last l; some (not (is_some last))

unfoldable pub get : SkipList → Key → Option (Option ValueStruct)
get l key = do
  (node, same) ← find_near l key false true
  if same
      then elim node [ none ↦ some none | some o ↦ do nd ← find o l.nodes; some (some nd.value) ]
      else some none

-- The walk of `key_values` over the base level.
unfoldable pub key_values_from : ℕ → SkipList → ℕ → Option (List IteratorItem)
key_values_from zero l cur = none
key_values_from (suc fuel) l cur = if cur == 0 then some [] else (do
  node ← find cur l.nodes
  next ← get_elem? node.tower 0
  rest ← key_values_from fuel l next
  some ((node.key, node.value) ∷ rest))

unfoldable pub key_values : SkipList → Option (List IteratorItem)
key_values l = do first ← get_next l l.head 0; key_values_from (search_fuel l) l first
