-- ===== src/Game/Showdown/Uncontested.antt =====
-- `collect_street_bets` of pot_calc.rs keeps the books, and `award_uncontested` of engine.rs pays one
-- player all that was staked.
use vibe_poker.Base.{
  ℕ, ◌+◌, ◌≤◌, ◌≡◌, refl, ap, ◌∙◌, List, [], ◌∷◌, some, get_elem?, get_elem?-lt, set, replicate,
  length, arith, All, map, sum_of, sum_of-map, sum_of-set, get_elem?-map, get_elem?-set_self,
  get_elem?-replicate, le-sum_of, add32, add32_fits, sum32, sum32_fits,
}
use vibe_poker.Game.State.{PlayerState, GameState, Pot, total}
use vibe_poker.Game.Pots.{collect_street_bets}
use vibe_poker.Game.Pots.Conservation.{committed}
use vibe_poker.Game.Betting.Ledger.{Ledger, chips, bets, stakes, wealth}
use vibe_poker.Game.Showdown.{award_uncontested}
use vibe_poker.Game.Showdown.Share.{sum}
use vibe_poker.Game.Showdown.Conservation.{stacks, chips-split, sum-replicate}

no_bets : (ps : List PlayerState) → sum_of (λ (p : PlayerState). 0) ps ≡ 0
no_bets [] = refl
no_bets (p ∷ ps) = omega (arith, no_bets ps)

All-cleared :
    (ps : List PlayerState)
    → All
        (λ (p : PlayerState). p.bet_this_street ≤ p.total_committed)
        (map (λ (p : PlayerState). record p { bet_this_street = 0 }) ps)
All-cleared [] = tt
All-cleared (p ∷ ps) = (omega arith, All-cleared ps)

-- Collecting the bets of a street keeps the books and loses no chip: the bets are then 0, and the
-- main pot is all that was staked.
pub collect_street_bets-Ledger :
    (ps : List PlayerState) (pot : Pot)
    → Ledger ps pot
    → let (qs, collected) = collect_street_bets ps pot in
      Ledger qs collected × (chips qs ≡ chips ps) × (bets qs ≡ 0) × (collected.main ≡ stakes ps)
unfolding collect_street_bets
collect_street_bets-Ledger ps pot l =
    let clear = λ (p : PlayerState). record p { bet_this_street = 0 } in
    let c = sum_of-map clear wealth ps in
    let b = sum_of-map clear (λ (p : PlayerState). p.bet_this_street) ps ∙ no_bets ps in
    let s = sum_of-map clear (λ (p : PlayerState). p.total_committed) ps in
    let all_in_chips = chips-split ps in
    let summed =
      sum32_fits (λ (p : PlayerState). p.bet_this_street) ps
        (omega (arith, l.balanced, l.bounded, all_in_chips)) in
    let main =
      ap (add32 pot.main) summed
      ∙ add32_fits pot.main (bets ps) (omega (arith, l.balanced, l.bounded, all_in_chips))
      ∙ l.balanced in
    (
      record {
        bounded = omega (arith, c, l.bounded);
        within = All-cleared ps;
        balanced = omega (arith, b, s, main);
        no_side = l.no_side;
      },
      c,
      b,
      main,
    )

total-collected :
    (ps : List PlayerState) (pot : Pot)
    → Ledger ps pot
    → total (collect_street_bets ps pot).1 ≡ committed ps
unfolding total collect_street_bets sum32
total-collected ps pot l =
    let (_, _, _, main) = collect_street_bets-Ledger ps pot l in
    rw (l.no_side, main)
      (omega (arith, add32_fits (committed ps) 0 (omega (arith, l.bounded, chips-split ps))))

-- The state and the payouts when `won` chips go to one player.
abbrev awarded : GameState → ℕ → PlayerState → ℕ → GameState × List ℕ
awarded s winner p won = (
  record s {
    players =
        set (collect_street_bets s.players s.pot).0 winner
          (record p { stack = add32 p.stack won; bet_this_street = 0 });
    pot = record ((collect_street_bets s.players s.pot).1) { main = 0 };
  },
  set (replicate (length (collect_street_bets s.players s.pot).0) 0) winner won,
)

award_uncontested_lem :
    (s : GameState) (winner : ℕ) (p : PlayerState)
    → Ledger s.players s.pot
    → get_elem? s.players winner ≡ some p
    → award_uncontested s winner ≡ some (awarded s winner p (committed s.players))
unfolding award_uncontested total collect_street_bets
award_uncontested_lem s winner p l g =
    rw (get_elem?-map (λ (q : PlayerState). record q { bet_this_street = 0 }) s.players winner g)
      (ap (λ w. some (awarded s winner p w)) (total-collected s.players s.pot l))

-- When a player who is left alone wins, on books that are in order, the award goes through: that
-- player's payout is all that was staked, nobody else gets any, and afterwards the stacks hold all
-- the chips of the hand.
pub award_uncontested_conserves :
    (s : GameState) (winner : ℕ) (p : PlayerState)
    → Ledger s.players s.pot
    → get_elem? s.players winner ≡ some p
    → (t : GameState) × (deltas : List ℕ) × (award_uncontested s winner ≡ some (t, deltas))
      × (get_elem? deltas winner ≡ some (committed s.players))
      × (sum deltas ≡ committed s.players)
      × (stacks t.players ≡ chips s.players)
unfolding collect_street_bets
award_uncontested_conserves s winner p l g =
    let clear = λ (q : PlayerState). record q { bet_this_street = 0 } in
    let won = committed s.players in
    let r = awarded s winner p won in
    let n = length (map clear s.players) in
    let found = get_elem?-map clear s.players winner g in
    let inside = get_elem?-lt (map clear s.players) winner found in
    let nothing : get_elem? (replicate n 0) winner ≡ some 0 =
      get_elem?-replicate n winner 0 inside in
    let shares : sum r.1 + 0 ≡ sum (replicate n 0) + won =
      sum_of-set (λ x. x) (replicate n 0) winner 0 won nothing in
    let paid : stacks r.0.players + p.stack ≡ stacks (map clear s.players) + add32 p.stack won =
      sum_of-set (λ (q : PlayerState). q.stack) (map clear s.players) winner (clear p) _ found in
    let kept : stacks (map clear s.players) ≡ stacks s.players =
      sum_of-map clear (λ (q : PlayerState). q.stack) s.players in
    let owned : p.stack ≤ stacks s.players =
      le-sum_of (λ (q : PlayerState). q.stack) s.players winner p g in
    let split = chips-split s.players in
    let fits : add32 p.stack won ≡ p.stack + won =
      add32_fits p.stack won (omega (arith, owned, l.bounded, split)) in
    (
      r.0,
      r.1,
      award_uncontested_lem s winner p l g,
      get_elem?-set_self (replicate n 0) winner won (get_elem?-lt (replicate n 0) winner nothing),
      omega (arith, shares, sum-replicate n),
      omega (arith, paid, kept, fits, split),
    )
