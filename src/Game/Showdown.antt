-- ===== src/Game/Showdown.antt =====
-- crates/poker-engine/src/game/engine.rs, showdown and awards. `none` is a panic. The payouts are
-- `i64` values to which only `u32` amounts are ever added, so they are numbers here.
pub mod Share
pub mod OddChips
pub mod Eligible
pub mod Conservation
pub mod Uncontested
use vibe_poker.Base.{
  ℕ, zero, suc, ◌+◌, ◌/◌, ◌%◌, max, Bool, true, false, ◌||◌, List, [], ◌∷◌, Option, none, some,
  ◌>>=◌, get_elem?, set, length, replicate, add32, u32_mod, ltb, ◌==◌, if◌then◌else◌,
}
use vibe_poker.Core.Card.{Card}
use vibe_poker.Game.State.{PlayerState, GameState, Pot, total}
use vibe_poker.Game.Pots.{ShowdownPot, build_showdown_pots, collect_street_bets}

-- `deltas[i] += x`
unfoldable pub add_at : List ℕ → ℕ → ℕ → Option (List ℕ)
add_at deltas i x = do d ← get_elem? deltas i; some (set deltas i (d + x))

-- `for &w in &winners { deltas[w] += share }`
unfoldable pub pay_shares : ℕ → List ℕ → List ℕ → Option (List ℕ)
unfolding add_at
pay_shares share [] deltas = some deltas
pay_shares share (w ∷ ws) deltas = add_at deltas w share >>= pay_shares share ws

abbrev pub contains : List ℕ → ℕ → Bool
contains [] x = false
contains (y ∷ ys) x = y == x || contains ys x

-- `(state.dealer + 1 + i) % n` for `i` in `0..n`: the first such seat that won. `rounds` are left.
unfoldable pub left_of_dealer : (dealer n : ℕ) → List ℕ → (rounds i : ℕ) → Option ℕ
left_of_dealer dealer n winners zero i = none
left_of_dealer dealer n winners (suc rounds) i =
    let seat = (dealer + 1 + i) % n in
    let rest = left_of_dealer dealer n winners rounds (i + 1) in
    if contains winners seat then some seat else rest

unfoldable pub pay_remainder : (dealer n : ℕ) → List ℕ → ℕ → List ℕ → Option (List ℕ)
unfolding left_of_dealer
pay_remainder dealer n winners remainder deltas =
    if ltb 0 remainder
    then (elim (left_of_dealer dealer n winners n 0) [
      | none ↦ some deltas
      | some seat ↦ add_at deltas seat remainder
    ])
    else some deltas

-- `amount / winners.len()` to each winner, and what does not divide to one of them.
unfoldable pub split_pot : (dealer n : ℕ) → ℕ → List ℕ → List ℕ → Option (List ℕ)
unfolding pay_shares pay_remainder
split_pot dealer n amount winners deltas = do
  paid ← pay_shares (amount / length winners) winners deltas
  pay_remainder dealer n winners (amount % length winners) paid

-- `ranks.iter().map(|(_, r)| *r).max()`
abbrev pub max_rank : ℕ → List (ℕ × ℕ) → ℕ
max_rank best [] = best
max_rank best ((seat, r) ∷ rs) = max_rank (max best r) rs

abbrev pub best_rank : List (ℕ × ℕ) → Option ℕ
best_rank [] = none
best_rank ((seat, r) ∷ rs) = some (max_rank r rs)

abbrev pub seats_of_rank : ℕ → List (ℕ × ℕ) → List ℕ
seats_of_rank best [] = []
seats_of_rank best ((seat, r) ∷ rs) =
    let rest = seats_of_rank best rs in if r == best then seat ∷ rest else rest

-- `p.stack = (p.stack as i64 + deltas[i]) as u32`
unfoldable pub apply_deltas : List PlayerState → List ℕ → Option (List PlayerState)
apply_deltas [] deltas = some []
apply_deltas (p ∷ ps) [] = none
apply_deltas (p ∷ ps) (d ∷ deltas) = do
  rest ← apply_deltas ps deltas
  some (record p { stack = add32 p.stack d } ∷ rest)

-- `Engine::award_uncontested`
unfoldable pub award_uncontested : GameState → ℕ → Option (GameState × List ℕ)
unfolding collect_street_bets total
award_uncontested s winner =
    let (players, pot) = collect_street_bets s.players s.pot in
    let won = total pot in
    do
      p ← get_elem? players winner
      some (
        record s {
          players = set players winner (record p { stack = add32 p.stack won });
          pot = record pot { main = 0 };
        },
        set (replicate (length players) 0) winner won,
      )

-- The evaluator is a parameter of the engine; of its `HandRank` only the order is used.
module _ (rank_7 : List Card → ℕ) where
  unfoldable pub ranked : List PlayerState → List Card → List ℕ → Option (List (ℕ × ℕ))
  ranked players board [] = some []
  ranked players board (seat ∷ seats) = do
    p ← get_elem? players seat
    (c, d) ← p.hole_cards
    rest ← ranked players board seats
    some ((seat, rank_7 (c ∷ d ∷ board)) ∷ rest)

  -- The winners of a pot among those who may win it.
  unfoldable pub winners : List PlayerState → List Card → List ℕ → Option (List ℕ)
  unfolding ranked
  winners players board eligible = do
    ranks ← ranked players board eligible
    best ← best_rank ranks
    some (seats_of_rank best ranks)

  unfoldable pub award_pot : GameState → ShowdownPot → List ℕ → Option (List ℕ)
  unfolding winners split_pot
  award_pot s (amount, []) deltas = some deltas
  award_pot s (amount, seat ∷ []) deltas =
      if amount == 0 then some deltas else add_at deltas seat amount
  award_pot s (amount, seat ∷ more ∷ seats) deltas =
      let contested : Option (List ℕ) = do
        ws ← winners s.players s.board (seat ∷ more ∷ seats)
        split_pot s.dealer (length s.players) amount ws deltas
      in if amount == 0 then some deltas else contested

  unfoldable pub award_pots : GameState → List ShowdownPot → List ℕ → Option (List ℕ)
  unfolding award_pot
  award_pots s [] deltas = some deltas
  award_pots s (pot ∷ pots) deltas = award_pot s pot deltas >>= award_pots s pots

  -- `Engine::resolve_showdown`; the board must have its five cards.
  unfoldable pub resolve_showdown : GameState → Option (GameState × List ℕ)
  unfolding award_pots apply_deltas build_showdown_pots
  resolve_showdown s =
      let resolved : Option (GameState × List ℕ) = do
        deltas ← award_pots s (build_showdown_pots s.players) (replicate (length s.players) 0)
        players ← apply_deltas s.players deltas
        some (record s { players = players }, deltas)
      in if length s.board == 5 then resolved else none
