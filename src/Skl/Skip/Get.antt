-- ===== src/Skl/Skip/Get.antt =====
-- Looking a key up in the skip list.
use badger_rs.Common.{ℕ}
use badger_rs.Common.{◌≡◌, refl, inl, inr, arith}
use badger_rs.Common.{Bool, true, false, Option, none, some}
use badger_rs.Common.{Bool-cases}
use badger_rs.Common.Keys.{Key, key_eq, key_cmp_refl, key_cmp_eq, key_cmp_flip_lt}
use badger_rs.Value.{ValueStruct}
use badger_rs.Skl.Skip.{Node, SkipList, get, find_near}
use badger_rs.Skl.Skip.Order.{Has, IsList, Nearest}
use badger_rs.Skl.Skip.Find.{find_near-Nearest}

-- The value of a node with the key, or no node has it.
abbrev pub Answer : SkipList → Key → Option ValueStruct → Type 0
Answer l key none = (m : ℕ) (md : Node) → Has l m md → key_eq md.key key ≡ false
Answer l key (some v) =
    (o : ℕ) × ((nd : Node) × (Has l o nd × ((key_eq nd.key key ≡ true) × (nd.value ≡ v))))

pub record Got (l : SkipList) (key : Key) : Type 0 where
  pub answer : Option ValueStruct
  pub runs : get l key ≡ some answer
  pub right : Answer l key answer

got :
    (l : SkipList) (key : Key) (node : Option ℕ) (same : Bool)
    → find_near l key false true ≡ some (node, same)
    → Nearest l false true key (node, same)
    → Got l key
unfolding get
got l key none same e near = record {
  answer = none;
  runs = ground (arith, e, near.exact);
  right = λ m md has. ground (arith, near.nearest m md has);
}
got l key (some o) same e near =
    let (nd, (has, (fit, best))) = near.nearest in
    elim (Bool-cases (key_eq nd.key key)) [
      | inl f ↦ record {
        answer = some nd.value;
        runs = ground (arith, e, near.exact, has.0, f);
        right = (o, (nd, (has, (f, refl))));
      }
      | inr f ↦ record {
        answer = none;
        runs = ground (arith, e, near.exact, has.0, f);
        right = λ m md there. elim (Bool-cases (key_eq md.key key)) [
          | inr g ↦ g
          | inl g ↦
              let here : md.key ≡ key = key_cmp_eq md.key key (ground (arith, g)) in
              let le = best m md there (ground (arith, here, key_cmp_refl key)) in
              absurd (
                ground (arith, here, f, fit, le, key_cmp_flip_lt key nd.key, key_cmp_eq nd.key key))
        ];
      }
    ]

-- Looking a key up ends without a panic, and answers the value of a node that has the key, or nothing
-- when no node has it. The links are in order.
pub get-Got : (l : SkipList) (key : Key) → IsList l → Got l key
get-Got l key ok =
    let r = find_near-Nearest l ok key false true in got l key r.out.0 r.out.1 r.runs r.near
