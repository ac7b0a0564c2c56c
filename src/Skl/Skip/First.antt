-- ===== src/Skl/Skip/First.antt =====
-- Going to the first node of a skip list without nodes.
use badger_rs.Common.{ℕ, zero, suc, ◌-◌, ◌<◌}
use badger_rs.Common.{◌≡◌, refl, ap, ◌∙◌, inl, inr, arith}
use badger_rs.Common.{false, none, some}
use badger_rs.Common.{[]}
use badger_rs.Common.{◌==◌, Bool-cases}
use badger_rs.Common.{eq→==, ==→eq}
use badger_rs.Skl.Skip.{
  max_height, Node, SkipList, get_next, find_last, find_last_from, search_fuel,
}
use badger_rs.Skl.Skip.Order.{Has, IsList}
use badger_rs.Skl.Skip.Near.{get_next_lem}
use badger_rs.Skl.Skip.Iter.{UniIterator, seek_to_first, uni_rewind}

module _ (l : SkipList) (ok : IsList l) (bare : (m : ℕ) (md : Node) → ¬ (Has l m md)) where
  no_link : (level : ℕ) → level < max_height → get_next l l.head level ≡ some 0
  no_link level low =
      let (hd, at) = ok.head_there in
      let (n, (step, link)) = get_next_lem l ok [] l.head level hd at low in
      elim (Bool-cases (n == 0)) [
        | inl z ↦ step ∙ ap (λ t. some t) (==→eq n 0 z)
        | inr z ↦
            let (md, (has, _)) = ok.links l.head hd level n at link (λ e. ground (arith, e, z)) in
            absurd (bare n md has)
      ]

  find_last_bare :
      (fuel level : ℕ)
      → level < fuel
      → level < max_height
      → find_last_from fuel l l.head level ≡ some none
  unfolding find_last_from
  find_last_bare zero level enough low = absurd (omega arith)
  find_last_bare (suc fuel) zero enough low =
      ground (arith, no_link 0 low, eq→== l.head l.head refl)
  find_last_bare (suc fuel) (suc level) enough low =
      ground (arith, no_link (suc level) low, find_last_bare fuel level (omega arith) (omega arith))

  -- The search for the last node finds none.
  find_last-bare : find_last l ≡ some none
  unfolding find_last
  find_last-bare =
      find_last_bare (search_fuel l) (l.height - 1) (omega arith) (omega (arith, ok.low, ok.high))

-- Rewinding an iterator over a skip list without nodes panics, where it goes forwards. The links
-- are in order.
pub uni_rewind-bare :
    (u : UniIterator)
    → IsList u.iter.st
    → ((m : ℕ) (md : Node) → ¬ (Has u.iter.st m md))
    → u.reversed ≡ false
    → uni_rewind u ≡ none
unfolding uni_rewind seek_to_first
uni_rewind-bare u ok bare forwards = ground (arith, forwards, find_last-bare u.iter.st ok bare)
