-- ===== src/Skl/Skip/Near.antt =====
-- The search of the skip list finds the nearest node.
use badger_rs.Skl.Skip.Order.{nearer}
use badger_rs.Skl.Skip.{nullable}
use badger_rs.Skl.Skip.{between}
use badger_rs.Skl.Skip.{max_height}
use badger_rs.Skl.Skip.{get_next}
use badger_rs.Skl.Skip.{key_at}
use badger_rs.Common.{ℕ, ◌≤◌, ◌<◌, Ordering}
use badger_rs.Common.{◌≡◌, refl, sym, ap, ◌∙◌, ◌≢◌, ◌⊎◌, inl, inr, arith}
use badger_rs.Common.{Bool, true, false, not, ◌&&◌, Option, none, some}
use badger_rs.Common.{List, [], ◌∷◌}
use badger_rs.Common.{◌==◌, Bool-cases}
use badger_rs.Common.{none-some, ==→eq}
use badger_rs.Common.{length, get_elem?, retain}
use badger_rs.Common.{get_elem?-some}
use badger_rs.Common.{some_inj}
use badger_rs.Common.Keys.{
  Key, key_cmp, key_le, key_cmp_refl, key_cmp_eq, key_cmp_flip_lt, key_cmp_trans, key_lt-not_le,
  key_lt_le_trans, key_lt_irrefl,
}
use badger_rs.Common.Maps.{find}
use badger_rs.Skl.Skip.{Node, SkipList, not_head}
use badger_rs.Skl.Skip.Order.{Has, ahead, IsList, fits, Nearest}

module _ {V : Type 0} (p q : ℕ × V → Bool) (sub : (e : ℕ × V) → q e ≡ true → p e ≡ true) where
  retain_le : (es : List (ℕ × V)) → length (retain q es) ≤ length (retain p es)
  retain_le [] = omega arith
  retain_le (e ∷ es) = ground (arith, retain_le es, sub e)

  pub retain_lt :
      (es : List (ℕ × V)) (n : ℕ) (v : V)
      → find n es ≡ some v
      → p (n, v) ≡ true
      → q (n, v) ≡ false
      → length (retain q es) < length (retain p es)
  unfolding find
  retain_lt [] n v at yes_p no_q = absurd (none-some v at)
  retain_lt ((j, w) ∷ es) n v at yes_p no_q = elim (Bool-cases (j == n)) [
    | inl e ↦
        let same : w ≡ v = some_inj (rw e at at) in
        let index : j ≡ n = ==→eq j n e in
        rw (same, index, yes_p, no_q) (omega (arith, retain_le es))
    | inr e ↦ ground (arith, retain_lt es n v (rw e at at) yes_p no_q, sub (j, w))
  ]

module _ (l : SkipList) (ok : IsList l) (key : Key) where
  -- How far the nodes behind a node are.
  abbrev pub behind : ℕ → Node → ℕ × Node → Bool
  behind x xd e = not (e.0 == l.head) && ahead l x xd e.1.key

  module _ (allow_equal : Bool) (x : ℕ) (xd : Node) (at : find x l.nodes ≡ some xd)
      (before : ahead l x xd key ≡ true) where
    -- No node that fits is behind `x`.
    pub Nearest-here :
        ((m : ℕ) (md : Node)
          → Has l m md
          → fits true allow_equal key md.key ≡ true
          → ahead l x xd md.key ≡ false)
        → Nearest l true allow_equal key (not_head l x, false)
    Nearest-here h = elim (Bool-cases (x == l.head)) [
      | inl e ↦
          rw e
            (record { nearest = λ m md has. ground (arith, h m md has, e); exact = ground arith })
      | inr e ↦ rw e (record {
        nearest = (
          xd,
          (
            (at, λ f. ground (arith, e, f)),
            (
              ground (arith, before, e),
              λ m md has f. ground (arith, h m md has f, key_lt-not_le xd.key md.key),
            ),
          ),
        );
        exact = ground (arith, at, before, e);
      })
    ]

  Nearest-none :
      (allow_equal : Bool)
      → ((m : ℕ) (md : Node) → Has l m md → fits false allow_equal key md.key ≡ false)
      → Nearest l false allow_equal key (none, false)
  Nearest-none allow_equal h = record { nearest = h; exact = ground arith }

  pub get_next_lem :
      (x level : ℕ) (xd : Node)
      → find x l.nodes ≡ some xd
      → level < max_height
      → (n : ℕ) × ((get_next l x level ≡ some n) × (get_elem? xd.tower level ≡ some n))
  unfolding get_next
  get_next_lem x level xd at low =
      let (n, e) = get_elem?-some xd.tower level (omega (arith, ok.towers x xd at)) in
      (n, (rw at e, e))

  pub key_at_lem : (x : ℕ) (xd : Node) → find x l.nodes ≡ some xd → key_at l x ≡ some xd.key
  unfolding key_at
  key_at_lem x xd at = rw at refl

  -- The nodes that are behind the next node are fewer.
  pub closer :
      (x n : ℕ) (xd nd : Node)
      → Has l n nd
      → ahead l x xd nd.key ≡ true
      → length (retain (behind n nd) l.nodes) < length (retain (behind x xd) l.nodes)
  closer x n xd nd has fwd =
      let proper : (n == l.head) ≡ false = ground (arith, has.1, ==→eq n l.head) in
      retain_lt (behind x xd) (behind n nd)
        (λ e h. ground (arith, h, fwd, proper, key_cmp_trans xd.key nd.key e.1.key)) l.nodes n nd
        has.0 (ground (arith, proper, fwd)) (ground (arith, proper, key_lt_irrefl nd.key))

  pub record Found (less allow_equal : Bool) (run : Option (Option ℕ × Bool)) : Type 0 where
    pub out : Option ℕ × Bool
    pub runs : run ≡ some out
    pub near : Nearest l less allow_equal key out

  nearer_equal :
      (less : Bool) (j k : Key) → key ≡ k → fits less true key j ≡ true → nearer less k j ≡ true
  nearer_equal true j k same f = ground (arith, same, f)
  nearer_equal false j k same f = ground (arith, same, f, key_cmp_eq j key, key_cmp_refl key)

  -- The nodes behind `x` begin with the next one of the base level.
  module _ (x n : ℕ) (xd : Node) (at : find x l.nodes ≡ some xd)
      (next : get_elem? xd.tower 0 ≡ some n) where
    pub next_first :
        (m : ℕ) (md nn : Node)
        → Has l m md
        → ahead l x xd md.key ≡ true
        → find n l.nodes ≡ some nn
        → key_le nn.key md.key ≡ true
    next_first m md nn has fwd there =
        let (n', (nn', (e, (_, (has', le))))) = ok.base x xd m md at has fwd in
        let same : n' ≡ n = some_inj (sym e ∙ next) in
        let here : nn' ≡ nn = some_inj (sym has'.0 ∙ ap (λ t. find t l.nodes) same ∙ there) in
        rw (← here) le

    none_behind : (m : ℕ) (md : Node) → Has l m md → n ≡ 0 → ahead l x xd md.key ≡ false
    none_behind m md has z = elim (Bool-cases (ahead l x xd md.key)) [
      | inl fwd ↦
          let (n', (nn', (e, (proper, _)))) = ok.base x xd m md at has fwd in
          absurd (proper (some_inj (sym e ∙ next) ∙ z))
      | inr e ↦ e
    ]

  module _ (x n : ℕ) (xd : Node) (at : find x l.nodes ≡ some xd) (before : ahead l x xd key ≡ true)
      (next : get_elem? xd.tower 0 ≡ some n) where
    pub at_end :
        (less allow_equal : Bool)
        → n ≡ 0
        → Nearest l less allow_equal key (between l less x 0, false)
    at_end true allow_equal z =
        Nearest-here allow_equal x xd at before
          (λ m md has f. none_behind x n xd at next m md has z)
    at_end false allow_equal z = Nearest-none allow_equal (λ m md has. ground (
      arith,
      none_behind x n xd at next m md has z,
      before,
      key_cmp_trans xd.key key md.key,
      key_cmp_eq md.key key,
    ))

    module _ (nn : Node) (has : Has l n nn) where
      -- The key lies between `x` and the next node, or on the next node and is not allowed there.
      pub before_next :
          (allow_equal : Bool)
          → (key_cmp key nn.key ≡ Ordering.lt)
            ⊎ ((key_cmp key nn.key ≡ Ordering.eq) × (allow_equal ≡ false))
          → Nearest l true allow_equal key (not_head l x, false)
      before_next allow_equal c = Nearest-here allow_equal x xd at before (λ m md h f.
          elim (Bool-cases (ahead l x xd md.key)) [
            | inl fwd ↦
                let le : key_le nn.key md.key ≡ true =
                  next_first x n xd at next m md nn h fwd has.0 in
                elim c [
                  | inl lt ↦ absurd (
                      ground (
                        arith,
                        lt,
                        f,
                        le,
                        key_lt_le_trans key nn.key md.key,
                        key_cmp_flip_lt md.key key,
                        key_cmp_eq md.key key,
                        key_cmp_refl key,
                      ))
                  | inr (eq, strict) ↦
                      let same : key ≡ nn.key = key_cmp_eq key nn.key eq in
                      absurd (ground (arith, same, strict, f, le, key_cmp_flip_lt md.key key))
                ]
            | inr e ↦ e
          ])

      pub at_gap :
          (less allow_equal : Bool)
          → n ≢ 0
          → key_cmp key nn.key ≡ Ordering.lt
          → Nearest l less allow_equal key (between l less x n, false)
      at_gap true allow_equal proper lt = before_next allow_equal (inl lt)
      at_gap false allow_equal proper lt =
          let z : (n == 0) ≡ false = ground (arith, proper, ==→eq n 0) in
          rw z (record {
            nearest = (
              nn,
              (
                has,
                (
                  ground (arith, lt),
                  λ m md h f.
                      next_first x n xd at next m md nn h
                        (ground (
                          arith,
                          f,
                          before,
                          key_cmp_trans xd.key key md.key,
                          key_cmp_eq md.key key,
                        ))
                        has.0,
                ),
              ),
            );
            exact = ground (arith, has.0, lt, key_cmp_flip_lt key nn.key);
          })

  pub at_equal :
      (n : ℕ) (nn : Node)
      → Has l n nn
      → (less : Bool) → key_cmp key nn.key ≡ Ordering.eq
      → Nearest l less true key (some n, true)
  at_equal n nn has less eq =
      let same : key ≡ nn.key = key_cmp_eq key nn.key eq in
      record {
        nearest = (
          nn,
          (
            has,
            (
              ground (arith, same, key_cmp_refl nn.key),
              λ m md h f. nearer_equal less md.key nn.key same f,
            ),
          ),
        );
        exact = ground (arith, has.0, same, key_cmp_refl nn.key);
      }

  -- The node behind the one with the key.

  -- The node behind the one with the key.
  pub at_equal_after :
      (n a : ℕ) (nn : Node)
      → Has l n nn
      → key_cmp key nn.key ≡ Ordering.eq
      → get_elem? nn.tower 0 ≡ some a
      → Nearest l false false key (nullable a, false)
  at_equal_after n a nn has eq e =
      let same : key ≡ nn.key = key_cmp_eq key nn.key eq in
      elim (Bool-cases (a == 0)) [
        | inl z ↦ rw z (
            Nearest-none false
              (λ m md h. ground (arith, none_behind n a nn has.0 e m md h (==→eq a 0 z), same)))
        | inr z ↦
            let (aa, (there, fwd)) = ok.links n nn 0 a has.0 e (λ f. ground (arith, f, z)) in
            let proper : (n == l.head) ≡ false = ground (arith, has.1, ==→eq n l.head) in
            rw z (record {
              nearest = (
                aa,
                (
                  there,
                  (
                    ground (arith, fwd, proper, same),
                    λ m md h f.
                        next_first n a nn has.0 e m md aa h (ground (arith, f, same)) there.0,
                  ),
                ),
              );
              exact = ground arith;
            })
      ]
