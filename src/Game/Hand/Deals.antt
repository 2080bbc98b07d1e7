-- ===== src/Game/Hand/Deals.antt =====
-- engine.rs, `deal_hole_cards`: the players with their cards.
use vibe_poker.Base.{
  ℕ, ◌+◌, ◌*◌, ◌≤◌, ◌<◌, ◌≡◌, refl, false, List, [], ◌∷◌, some, arith, get_elem?_total, length,
  count_if, All, Bool-cases, inl, inr,
}
use vibe_poker.Core.Card.{Card}
use vibe_poker.Core.Deck.{Deck, deal}
use vibe_poker.Game.State.{PlayerState, is_in}
use vibe_poker.Game.Event.{EngineEvent, hole_cards_dealt}
use vibe_poker.Game.Betting.Ledger.{chips, bets, stakes}
use vibe_poker.Game.Betting.Live.{Live}
use vibe_poker.Game.Hand.{deal_hole_from}
use vibe_poker.Game.Hand.Blinds.{Seated}

deal-total :
    (d : Deck)
    → d.cursor < length d.cards
    → (c : Card) × (deal d ≡ some (c, record d { cursor = d.cursor + 1 }))
unfolding deal
deal-total d h = let (c, e) = get_elem?_total d.cards d.cursor h in (c, rw e refl)

Seated-Live :
    (bet : ℕ) (p : PlayerState) (h : Card × Card)
    → Seated bet p
    → Live bet (record p { hole_cards = some h })
Seated-Live bet p h s = record {
  matched = s.matched;
  stocked = s.stocked;
  owing = s.owing;
  staked = s.staked;
  dealt = λ _. (h, refl);
  outside = s.outside;
}

Seated-outside : (bet : ℕ) (p : PlayerState) → is_in p ≡ false → Seated bet p → Live bet p
Seated-outside bet p e s = record {
  matched = s.matched;
  stocked = s.stocked;
  owing = s.owing;
  staked = s.staked;
  dealt = λ on. absurd (ground arith);
  outside = s.outside;
}

abbrev pub IsWithin : PlayerState → Type 0
IsWithin p = p.bet_this_street ≤ p.total_committed

-- The players with their cards.
pub record Dealt (bet : ℕ) (ps qs : List PlayerState) : Type 0 where
  pub chips_kept : chips qs ≡ chips ps
  pub bets_kept : bets qs ≡ bets ps
  pub stakes_kept : stakes qs ≡ stakes ps
  pub count_kept : count_if is_in qs ≡ count_if is_in ps
  pub length_kept : length qs ≡ length ps
  pub within : All IsWithin ps → All IsWithin qs
  pub lives : All (Live bet) qs

pub deal_hole_from-Dealt :
    (bet i : ℕ) (ps : List PlayerState) (d : Deck)
    → d.cursor + 2 * length ps ≤ length d.cards
    → All (Seated bet) ps
    → (qs : List PlayerState) × (e : Deck) × (es : List EngineEvent) × (deal_hole_from i ps d
        ≡ some (qs, e, es))
      × Dealt bet ps qs
      × (e.cursor ≤ d.cursor + 2 * length ps)
      × (e.cards ≡ d.cards)
unfolding deal_hole_from
deal_hole_from-Dealt bet i [] d h a = (
  [],
  d,
  [],
  refl,
  record {
    chips_kept = refl;
    bets_kept = refl;
    stakes_kept = refl;
    count_kept = refl;
    length_kept = refl;
    within = λ w. w;
    lives = tt;
  },
  omega arith,
  refl,
)
deal_hole_from-Dealt bet i (p ∷ ps) d h (s, a) = elim (Bool-cases (is_in p)) [
  | inl e ↦
      (let (c1, run1) = deal-total d (omega arith) in
        let d1 = record d { cursor = d.cursor + 1 } in
        let (c2, run2) = deal-total d1 (omega arith) in
        let d2 = record d1 { cursor = d1.cursor + 1 } in
        let (qs, d3, es, run, o, at, same) =
          deal_hole_from-Dealt bet (i + 1) ps d2 (omega arith) a in
        (
          record p { hole_cards = some (c1, c2) } ∷ qs,
          d3,
          hole_cards_dealt i (c1, c2) ∷ es,
          rw (deal_hole_from, e, run1, run2, run) refl,
          record {
            chips_kept = omega (arith, o.chips_kept);
            bets_kept = omega (arith, o.bets_kept);
            stakes_kept = omega (arith, o.stakes_kept);
            count_kept = omega (arith, o.count_kept);
            length_kept = omega (arith, o.length_kept);
            within = λ w. (w.0, o.within w.1);
            lives = (Seated-Live bet p (c1, c2) s, o.lives);
          },
          omega (arith, at),
          same,
        ))
  | inr e ↦
      (let (qs, d3, es, run, o, at, same) = deal_hole_from-Dealt bet (i + 1) ps d (omega arith) a in
        (
          p ∷ qs,
          d3,
          es,
          rw (deal_hole_from, e, run) refl,
          record {
            chips_kept = omega (arith, o.chips_kept);
            bets_kept = omega (arith, o.bets_kept);
            stakes_kept = omega (arith, o.stakes_kept);
            count_kept = omega (arith, o.count_kept);
            length_kept = omega (arith, o.length_kept);
            within = λ w. (w.0, o.within w.1);
            lives = (Seated-outside bet p e s, o.lives);
          },
          omega (arith, at),
          same,
        ))
]
