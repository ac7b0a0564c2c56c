-- ===== src/Skl/Skip/Order.antt =====
-- The order that the links of the skip list keep, and the nodes nearest to a key.
use badger_rs.Common.{ℕ, ◌≤◌, ◌<◌}
use badger_rs.Common.{◌≡◌, ◌≢◌}
use badger_rs.Common.{Bool, true, false, ◌&&◌, ◌||◌, Option, none, some}
use badger_rs.Common.{◌==◌, if◌then◌else◌}
use badger_rs.Common.{length, get_elem?}
use badger_rs.Common.Keys.{Key, key_lt, key_le, key_eq}
use badger_rs.Common.Maps.{find}
use badger_rs.Skl.Skip.{max_height, Node, SkipList}

-- A node other than the head.
abbrev pub Has : SkipList → ℕ → Node → Type 0
Has l m md = (find m l.nodes ≡ some md) × (m ≢ l.head)

-- The node stands before the key; the head stands before every key.
abbrev pub ahead : SkipList → ℕ → Node → Key → Bool
ahead l o nd k = o == l.head || key_lt nd.key k

-- No key stands twice, the head has no link above the height, every link leads to a node behind its own, and on the base level to the next one.
pub record IsList (l : SkipList) : Type 0 where
  pub low : 1 ≤ l.height
  pub high : l.height ≤ max_height
  pub head_proper : l.head ≢ 0
  pub null : find 0 l.nodes ≡ none
  pub head_there : (hd : Node) × (find l.head l.nodes ≡ some hd)
  pub unique :
      (o : ℕ) (nd : Node) (m : ℕ) (md : Node) → Has l o nd → Has l m md → nd.key ≡ md.key → o ≡ m
  pub towers : (o : ℕ) (nd : Node) → find o l.nodes ≡ some nd → length nd.tower ≡ max_height
  pub above :
      (hd : Node) (level : ℕ)
      → find l.head l.nodes ≡ some hd
      → l.height ≤ level
      → level < max_height
      → get_elem? hd.tower level ≡ some 0
  pub links :
      (o : ℕ) (nd : Node) (level n : ℕ)
      → find o l.nodes ≡ some nd
      → get_elem? nd.tower level ≡ some n
      → n ≢ 0
      → (md : Node) × (Has l n md × (ahead l o nd md.key ≡ true))
  pub base :
      (o : ℕ) (nd : Node) (m : ℕ) (md : Node)
      → find o l.nodes ≡ some nd
      → Has l m md
      → ahead l o nd md.key ≡ true
      → (n : ℕ) × ((nn : Node) × ((get_elem? nd.tower 0 ≡ some n)
            × ((n ≢ 0) × (Has l n nn × (key_le nn.key md.key ≡ true)))))

-- The keys that a search may answer, and which of two is nearer.
abbrev pub fits : Bool → Bool → Key → Key → Bool
fits less allow_equal key k =
    (if less then key_lt k key else key_lt key k) || (allow_equal && key_eq k key)

abbrev pub nearer : Bool → Key → Key → Bool
nearer less j k = if less then key_le k j else key_le j k

-- The node is the nearest that fits, or no node fits.
abbrev pub IsNearest : SkipList → Bool → Bool → Key → Option ℕ → Type 0
IsNearest l less allow_equal key none =
    (m : ℕ) (md : Node) → Has l m md → fits less allow_equal key md.key ≡ false
IsNearest l less allow_equal key (some o) =
    (nd : Node) × (Has l o nd
      × ((fits less allow_equal key nd.key ≡ true)
          × ((m : ℕ) (md : Node)
              → Has l m md
              → fits less allow_equal key md.key ≡ true
              → nearer less nd.key md.key ≡ true)))

-- The node has the key that was asked for.
abbrev pub has_key : SkipList → Key → Option ℕ → Bool
has_key l key none = false
has_key l key (some o) = elim (find o l.nodes) [ none ↦ false | some nd ↦ key_eq nd.key key ]

pub record Nearest (l : SkipList) (less allow_equal : Bool) (key : Key) (out : Option ℕ × Bool)
    : Type 0 where
  pub nearest : IsNearest l less allow_equal key out.0
  pub exact : out.1 ≡ (allow_equal && has_key l key out.0)
