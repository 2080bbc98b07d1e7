-- ===== src/Game/Betting/Live.antt =====
-- What engine.rs keeps true of each player through the betting of a street.
use vibe_poker.Base.{
  ℕ, ◌+◌, ◌-◌, ◌≤◌, ◌<◌, min, ◌≡◌, refl, true, false, some, arith, u32_mod, add32, add32_fits,
  sub32, sub32_fits, Bool-cases, inl, inr, ◌==◌,
}
use vibe_poker.Core.Card.{Card}
use vibe_poker.Game.State.{
  PlayerState, PlayerStatus, GameState, is_active, is_all_in, is_out, is_in,
}
use vibe_poker.Game.Action.{raise}
use vibe_poker.Game.Betting.{pay, settle, raise_seat, all_in_seat, reopen}
use vibe_poker.Game.Betting.Raises.{Fits}
use vibe_poker.Game.Betting.Rule47.{IsNormal}

-- A player in the hand has cards, and chips at stake or still owes the bet; one who may act has a
-- stack. Nobody's bet is above the bet to match.
pub record Live (bet : ℕ) (p : PlayerState) : Type 0 where
  pub matched : p.bet_this_street ≤ bet
  pub stocked : is_active p.status ≡ true → 0 < p.stack
  pub owing : is_active p.status ≡ true → 0 < p.total_committed + (bet - p.bet_this_street)
  pub staked : is_all_in p.status ≡ true → 0 < p.total_committed
  pub dealt : is_in p ≡ true → (h : Card × Card) × (p.hole_cards ≡ some h)
  pub outside : is_out p.status ≡ true → p.total_committed ≡ 0

pub Live-grows : (b c : ℕ) (p : PlayerState) → b ≤ c → Live b p → Live c p
Live-grows b c p h l = record {
  matched = omega (arith, l.matched);
  stocked = l.stocked;
  owing = λ a. omega (arith, l.owing a);
  staked = l.staked;
  dealt = l.dealt;
  outside = l.outside;
}

module _ (s : GameState) (seat : ℕ) (p : PlayerState) (f : Fits s p) (l : Live s.current_bet p)
    (active : is_active p.status ≡ true) (cap : p.stack + p.total_committed < u32_mod)
    (step : 0 < s.min_raise_increment) where
  abbrev pub after_fold : PlayerState
  after_fold = record p { status = PlayerStatus.folded }

  pub fold-Live : Live s.current_bet after_fold
  fold-Live = record {
    matched = l.matched;
    stocked = λ h. absurd (ground arith);
    owing = λ h. absurd (ground arith);
    staked = λ h. absurd (ground arith);
    dealt = λ h. absurd (ground arith);
    outside = λ h. absurd (ground arith);
  }

  holds_cards : (h : Card × Card) × (p.hole_cards ≡ some h)
  holds_cards = l.dealt (rw active refl)

  -- The player after chips moved to the bet, as one who may still act and as one who is all-in.
  abbrev moved : ℕ → PlayerStatus → PlayerState
  moved paid status = record (pay p paid) { status = status }

  moved-Live :
      (paid c : ℕ) (status : PlayerStatus)
      → paid ≤ p.stack
      → p.bet_this_street + paid ≤ c
      → 0 < p.total_committed + paid + (c - (p.bet_this_street + paid))
      → is_out status ≡ false
      → (is_active status ≡ true → paid < p.stack)
      → (is_all_in status ≡ true → 0 < p.total_committed + paid)
      → Live c (moved paid status)
  unfolding pay
  moved-Live paid c status has top owes in_play kept spent =
      let e = sub32_fits p.stack paid has (omega (arith, cap)) in
      let b = add32_fits p.bet_this_street paid (omega (arith, f.player_fits)) in
      let t = add32_fits p.total_committed paid (omega (arith, cap)) in
      record {
        matched = omega (arith, b, top);
        stocked = λ h. omega (arith, e, kept h);
        owing = λ h. omega (arith, b, t, owes);
        staked = λ h. omega (arith, t, spent h);
        dealt = λ h. holds_cards;
        outside = λ h. absurd (ground arith);
      }

  pub call-Live :
      Live s.current_bet (settle seat (pay p (min (s.current_bet - p.bet_this_street) p.stack))).0
  unfolding settle pay
  call-Live =
      let paid = min (s.current_bet - p.bet_this_street) p.stack in
      let e = sub32_fits p.stack paid (omega arith) (omega (arith, cap)) in
      elim (Bool-cases (sub32 p.stack paid == 0)) [
        | inl z ↦ rw z (
            moved-Live paid s.current_bet PlayerStatus.all_in (omega arith)
              (omega (arith, l.matched)) (omega (arith, l.stocked active)) refl
              (λ h. absurd (ground arith)) (λ h. ground (arith, e, l.stocked active)))
        | inr z ↦ rw z (
            moved-Live paid s.current_bet p.status (omega arith) (omega (arith, l.matched))
              (omega (arith, l.owing active)) (ground arith) (λ h. ground arith)
              (λ h. absurd (ground arith)))
      ]

  pub raise-Live :
      (m : ℕ)
      → IsNormal s p (raise m)
      → Live (raise_seat s seat p m).state.current_bet (pay p (min (m - p.bet_this_street) p.stack))
  unfolding raise_seat pay
  raise-Live m n =
      let paid = min (m - p.bet_this_street) p.stack in
      moved-Live paid (add32 p.bet_this_street paid) p.status (omega arith)
        (omega (arith, add32_fits p.bet_this_street paid, f.player_fits))
        (omega (arith, n.0, n.1, step, l.matched)) (ground arith)
        (λ h. omega (arith, n.0, n.1, l.matched, step)) (λ h. absurd (ground arith))

  abbrev pub after_all_in : PlayerState
  after_all_in = record p {
    stack = 0;
    bet_this_street = add32 p.bet_this_street p.stack;
    total_committed = add32 p.total_committed p.stack;
    status = PlayerStatus.all_in;
  }

  all_in_bet : add32 p.bet_this_street p.stack ≤ (all_in_seat s seat p).state.current_bet
  unfolding all_in_seat reopen
  all_in_bet = ground arith

  pub all_in-Live : Live (all_in_seat s seat p).state.current_bet after_all_in
  all_in-Live =
      let t = add32_fits p.total_committed p.stack (omega (arith, cap)) in
      record {
        matched = all_in_bet;
        stocked = λ h. absurd (ground arith);
        owing = λ h. absurd (ground arith);
        staked = λ h. omega (arith, t, l.stocked active);
        dealt = λ h. holds_cards;
        outside = λ h. absurd (ground arith);
      }
