-- ===== src/Skl/Skip/Find.antt =====
-- The loop of the search ends, and answers the nearest node.
use badger_rs.Common.{ℕ, zero, suc, ◌+◌, ◌-◌, ◌<◌, Ordering}
use badger_rs.Common.{◌≡◌, refl, inl, inr, arith}
use badger_rs.Common.{Bool, true, false, some}
use badger_rs.Common.{◌==◌, Bool-cases, Ordering-cases}
use badger_rs.Common.{==→eq}
use badger_rs.Common.{length, get_elem?, retain}
use badger_rs.Common.{length-retain}
use badger_rs.Common.Keys.{Key, key_cmp, key_cmp_flip}
use badger_rs.Common.Maps.{find}
use badger_rs.Skl.Skip.{
  max_height, Node, SkipList, nullable, get_next, not_head, between, find_near_from, search_fuel,
  find_near,
}
use badger_rs.Skl.Skip.Order.{Has, ahead, IsList}
use badger_rs.Skl.Skip.Near.{
  behind, get_next_lem, key_at_lem, closer, at_end, at_gap, before_next, at_equal, at_equal_after,
  Found,
}

module _ (l : SkipList) (ok : IsList l) (key : Key) where
  abbrev pub Run : Bool → Bool → ℕ → ℕ → ℕ → Type 0
  Run less allow_equal fuel x level =
      Found l ok key less allow_equal (find_near_from fuel l key less allow_equal x level)

  -- A step of the search at `x`, when the steps that go down answer well.
  module _ (less allow_equal : Bool) (fuel x n : ℕ) (xd : Node) (at : find x l.nodes ≡ some xd)
      (before : ahead l x xd key ≡ true) where
    near_end :
        (level : ℕ)
        → get_next l x level ≡ some n
        → get_elem? xd.tower level ≡ some n
        → n ≡ 0
        → ((low : ℕ) → level ≡ suc low → Run less allow_equal fuel x low)
        → Run less allow_equal (suc fuel) x level
    unfolding find_near_from
    near_end zero step next z down = record {
      out = (between l less x 0, false);
      runs = rw (step, z) refl;
      near = at_end l ok key x n xd at before next less allow_equal z;
    }
    near_end (suc low) step next z down =
        let r = down low refl in record { out = r.out; runs = rw (step, z) r.runs; near = r.near }

    module _ (nn : Node) (proper : (n == 0) ≡ false) (has : Has l n nn) where
      near_gap :
          (level : ℕ)
          → get_next l x level ≡ some n
          → get_elem? xd.tower level ≡ some n
          → key_cmp key nn.key ≡ Ordering.lt
          → ((low : ℕ) → level ≡ suc low → Run less allow_equal fuel x low)
          → Run less allow_equal (suc fuel) x level
      unfolding find_near_from
      near_gap zero step next lt down = record {
        out = (between l less x n, false);
        runs = ground (arith, step, proper, lt, key_at_lem l ok key n nn has.0);
        near =
            at_gap l ok key x n xd at before next nn has less allow_equal
              (λ e. ground (arith, e, proper)) lt;
      }
      near_gap (suc low) step next lt down =
          let r = down low refl in
          record {
            out = r.out;
            runs = ground (arith, step, proper, lt, key_at_lem l ok key n nn has.0, r.runs);
            near = r.near;
          }

  near_equal :
      (less allow_equal : Bool) (fuel x n : ℕ) (xd : Node) (at : find x l.nodes ≡ some xd)
      (before : ahead l x xd key ≡ true) (nn : Node) (proper : (n == 0) ≡ false) (has : Has l n nn)
      (level : ℕ)
      → get_next l x level ≡ some n
      → get_elem? xd.tower level ≡ some n
      → key_cmp key nn.key ≡ Ordering.eq
      → ((low : ℕ) → level ≡ suc low → Run less allow_equal fuel x low)
      → Run less allow_equal (suc fuel) x level
  unfolding find_near_from
  near_equal less true fuel x n xd at before nn proper has level step next eq down = record {
    out = (some n, true);
    runs = ground (arith, step, proper, eq, key_at_lem l ok key n nn has.0);
    near = at_equal l ok key n nn has less eq;
  }
  near_equal false false fuel x n xd at before nn proper has level step next eq down =
      let (a, (after, e)) = get_next_lem l ok key n 0 nn has.0 (omega arith) in
      record {
        out = (nullable a, false);
        runs = ground (arith, step, proper, eq, after, key_at_lem l ok key n nn has.0);
        near = at_equal_after l ok key n a nn has eq e;
      }
  near_equal true false fuel x n xd at before nn proper has zero step next eq down = record {
    out = (not_head l x, false);
    runs = ground (arith, step, proper, eq, key_at_lem l ok key n nn has.0);
    near = before_next l ok key x n xd at before next nn has false (inr (eq, refl));
  }
  near_equal true false fuel x n xd at before nn proper has (suc low) step next eq down =
      let r = down low refl in
      record {
        out = r.out;
        runs = ground (arith, step, proper, eq, key_at_lem l ok key n nn has.0, r.runs);
        near = r.near;
      }

  near_lem :
      (less allow_equal : Bool) (fuel x level : ℕ) (xd : Node)
      → find x l.nodes ≡ some xd
      → ahead l x xd key ≡ true
      → level < max_height
      → level + length (retain (behind l ok key x xd) l.nodes) < fuel
      → Found l ok key less allow_equal (find_near_from fuel l key less allow_equal x level)
  unfolding find_near_from
  near_lem less allow_equal zero x level xd at before low enough = absurd (omega arith)
  near_lem less allow_equal (suc fuel) x level xd at before low enough =
      let (n, (step, next)) = get_next_lem l ok key x level xd at low in
      let down = λ (j : ℕ) (e : level ≡ suc j).
        near_lem less allow_equal fuel x j xd at before (omega arith) (omega arith) in
      elim (Bool-cases (n == 0)) [
        | inl z ↦ near_end less allow_equal fuel x n xd at before level step next (==→eq n 0 z) down
        | inr z ↦
            let (nn, (has, fwd)) = ok.links x xd level n at next (λ e. ground (arith, e, z)) in
            elim (Ordering-cases (key_cmp key nn.key)) [
              | inl o ↦
                  near_gap less allow_equal fuel x n xd at before nn z has level step next o down
              | inr (inl o) ↦
                  near_equal less allow_equal fuel x n xd at before nn z has level step next o down
              | inr (inr o) ↦
                  let r =
                    near_lem less allow_equal fuel n level nn has.0
                      (ground (arith, key_cmp_flip key nn.key o)) low
                      (omega (arith, closer l ok key x n xd nn has fwd)) in
                  record {
                    out = r.out;
                    runs = ground (arith, step, z, o, key_at_lem l ok key n nn has.0, r.runs);
                    near = r.near;
                  }
            ]
      ]

  -- Searching the list for the node nearest to a key, on either side and with the key itself or
  -- not, ends without a panic, and answers the node that is nearest among all nodes, or none when
  -- no node fits; the flag tells whether the node has the key. The links are in order.
  pub find_near-Nearest :
      (less allow_equal : Bool) → Found l ok key less allow_equal (find_near l key less allow_equal)
  unfolding find_near
  find_near-Nearest less allow_equal =
      let (hd, there) = ok.head_there in
      near_lem less allow_equal (search_fuel l) l.head (l.height - 1) hd there (ground arith)
        (omega (arith, ok.low, ok.high))
        (omega (arith, ok.low, length-retain (behind l ok key l.head hd) l.nodes))
