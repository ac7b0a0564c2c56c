-- ===== src/Skl/Skip/Iter.antt =====
-- The iterators over a skip list: `SkipIterator` and `UniIterator` of src/skl/skip.rs and `Cursor` of
-- src/skl/cursor.rs. An outer `none` is a panic, which is also a failed `unwrap`.
use badger_rs.Common.{ℕ}
use badger_rs.Common.{Bool, true, false, not, Option, none, some}
use badger_rs.Common.{◌==◌, if◌then◌else◌, ◌>>=◌, ◌>>◌}
use badger_rs.Common.{guard}
use badger_rs.Common.Keys.{Key}
use badger_rs.Common.Maps.{is_some, find}
use badger_rs.LevelHandler.Lookup.{IteratorItem}
use badger_rs.Skl.Skip.{SkipList, get_next, key_at, find_near, find_last}

pub record SkipIterator : Type 0 where
  pub st : SkipList
  pub node : ℕ

-- `SkipIterator::new`: on the head
unfoldable pub new_iterator : SkipList → SkipIterator
new_iterator st = record { st = st; node = st.head }

unfoldable pub get_item_by_node : SkipList → ℕ → Option (Option IteratorItem)
get_item_by_node st o =
    if o == st.head
    then some none
    else (do node ← find o st.nodes; some (some (node.key, node.value)))

unfoldable pub peek : SkipIterator → Option (Option IteratorItem)
peek it = if it.node == 0 then some none else get_item_by_node it.st it.node

-- Stand on a node and answer its item.
abbrev pub stand : SkipIterator → ℕ → Option (Option IteratorItem × SkipIterator)
stand it o = do item ← get_item_by_node it.st o; some (item, record it { node = o })

-- What the searches do with their answer: without one, back to the head.
abbrev pub stand_or_head : SkipIterator → Option ℕ → Option (Option IteratorItem × SkipIterator)
stand_or_head it none = some (none, record it { node = it.st.head })
stand_or_head it (some o) = stand it o

unfoldable pub next : SkipIterator → Option (Option IteratorItem × SkipIterator)
next it = if it.node == 0 then some (none, it) else (do
  after ← get_next it.st it.node 0
  if after == 0 then some (none, record it { node = 0 }) else stand it after)

unfoldable pub seek_to_last : SkipIterator → Option (Option IteratorItem × SkipIterator)
seek_to_last it = do last ← find_last it.st; stand_or_head it last

unfoldable pub prev : SkipIterator → Option (Option IteratorItem × SkipIterator)
prev it =
    if it.node == 0 then seek_to_last it else if it.node == it.st.head then some (none, it) else (do
      key ← key_at it.st it.node
      (before, _) ← find_near it.st key true false
      stand_or_head it before)

unfoldable pub seek : SkipIterator → Key → Option (Option IteratorItem × SkipIterator)
seek it key = do (o, _) ← find_near it.st key false true; stand_or_head it o

unfoldable pub seek_to_prev : SkipIterator → Key → Option (Option IteratorItem × SkipIterator)
seek_to_prev it key = do (o, _) ← find_near it.st key true true; stand_or_head it o

-- The first and the last key are unwrapped before the list is looked at.
unfoldable pub seek_to_first : SkipIterator → Option (Option IteratorItem × SkipIterator)
seek_to_first it = do
  last ← find_last it.st
  guard (is_some last)
  first ← get_next it.st it.st.head 0
  guard (not (first == 0))
  stand it first

pub record UniIterator : Type 0 where
  pub iter : SkipIterator
  pub reversed : Bool

unfoldable pub new_uni : SkipList → Bool → UniIterator
new_uni st reversed = record {
  iter = if reversed then record (new_iterator st) { node = 0 } else new_iterator st;
  reversed = reversed;
}

abbrev pub wrap :
    Bool → Option (Option IteratorItem × SkipIterator) → Option (Option IteratorItem × UniIterator)
wrap reversed run = do (item, it) ← run; some (item, record { iter = it; reversed = reversed })

unfoldable pub uni_next : UniIterator → Option (Option IteratorItem × UniIterator)
uni_next u = wrap u.reversed (if u.reversed then prev u.iter else next u.iter)

unfoldable pub uni_rewind : UniIterator → Option (Option IteratorItem × UniIterator)
uni_rewind u = wrap u.reversed (if u.reversed then seek_to_last u.iter else seek_to_first u.iter)

unfoldable pub uni_seek : UniIterator → Key → Option (Option IteratorItem × UniIterator)
uni_seek u key = wrap u.reversed (if u.reversed then seek_to_prev u.iter key else seek u.iter key)

unfoldable pub uni_peek : UniIterator → Option (Option IteratorItem)
uni_peek u = peek u.iter
