-- ===== src/Skl/Skip/Link.antt =====
-- Setting one link above the base level keeps the order of the skip list.
use badger_rs.Common.{ℕ}
use badger_rs.Common.{◌≡◌, refl, sym, ap, ◌∙◌, inl, inr, arith}
use badger_rs.Common.{false, ◌&&◌, none, some}
use badger_rs.Common.{◌==◌, if◌then◌else◌, Bool-cases}
use badger_rs.Common.{eq→==, ==→eq}
use badger_rs.Common.{length, get_elem?, set}
use badger_rs.Common.{length-set}
use badger_rs.Common.{some_inj}
use badger_rs.Common.Maps.{find, put, find-put}
use badger_rs.Common.Maps
use badger_rs.Skl.Skip.{Node, SkipList}
use badger_rs.Skl.Skip.Insert.{set_next}
use badger_rs.Merge.Invariant.{get-set}

-- A node after one link was set.
pub record Kept (o level n j : ℕ) (jd jd' : Node) : Type 0 where
  pub key : jd'.key ≡ jd.key
  pub value : jd'.value ≡ jd.value
  pub size : length jd'.tower ≡ length jd.tower
  pub tower :
      (lv : ℕ)
      → get_elem? jd'.tower lv ≡ (if o == j && level == lv then some n else get_elem? jd.tower lv)

-- The list after one link was set.
pub record Relinked (l : SkipList) (o level n : ℕ) (l' : SkipList) : Type 0 where
  pub height : l'.height ≡ l.height
  pub head : l'.head ≡ l.head
  pub null : find 0 l.nodes ≡ none → find 0 l'.nodes ≡ none
  pub back :
      (j : ℕ) (jd' : Node)
      → find j l'.nodes ≡ some jd'
      → (jd : Node) × ((find j l.nodes ≡ some jd) × Kept o level n j jd jd')
  pub forth :
      (j : ℕ) (jd : Node)
      → find j l.nodes ≡ some jd
      → (jd' : Node) × ((find j l'.nodes ≡ some jd') × Kept o level n j jd jd')

module _ (l : SkipList) (o level n : ℕ) (nd : Node) (old : ℕ) (at : find o l.nodes ≡ some nd)
    (link : get_elem? nd.tower level ≡ some old) where
  abbrev pub relinked : SkipList
  relinked = record l { nodes = Maps.put o (record nd { tower = set nd.tower level n }) l.nodes }

  pub set_next_lem : set_next l o level n ≡ some relinked
  unfolding set_next
  set_next_lem = rw (at, link) refl

  here_Kept : Kept o level n o nd (record nd { tower = set nd.tower level n })
  here_Kept = record {
    key = refl;
    value = refl;
    size = length-set nd.tower level n;
    tower = λ lv. ground (arith, get-set nd.tower level lv n, link, ==→eq level lv, eq→== o o refl);
  }

  other_Kept : (j : ℕ) (jd : Node) → (o == j) ≡ false → Kept o level n j jd jd
  other_Kept j jd e = record {
    key = refl;
    value = refl;
    size = refl;
    tower = λ lv. ground (arith, e);
  }

  pub set_next-Relinked : Relinked l o level n relinked
  set_next-Relinked =
      let nd' : Node = record nd { tower = set nd.tower level n } in
      record {
        height = refl;
        head = refl;
        null = λ e. find-put o 0 nd' l.nodes ∙ ground (arith, e, at, ==→eq o 0);
        back = λ j jd' e. elim (Bool-cases (o == j)) [
          | inl f ↦
              let same : o ≡ j = ==→eq o j f in
              let here : nd' ≡ jd' = some_inj (sym (find-put o j nd' l.nodes ∙ rw f refl) ∙ e) in
              (nd, (rw (← same) at, rw (← same, ← here) here_Kept))
          | inr f ↦ (jd', (sym (find-put o j nd' l.nodes ∙ rw f refl) ∙ e, other_Kept j jd' f))
        ];
        forth = λ j jd e. elim (Bool-cases (o == j)) [
          | inl f ↦
              let same : o ≡ j = ==→eq o j f in
              let here : nd ≡ jd = some_inj (sym at ∙ ap (λ t. find t l.nodes) same ∙ e) in
              (nd', (find-put o j nd' l.nodes ∙ rw f refl, rw (← same, ← here) here_Kept))
          | inr f ↦ (jd, (find-put o j nd' l.nodes ∙ rw f e, other_Kept j jd f))
        ];
      }
