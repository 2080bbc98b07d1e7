-- ===== src/Game/Betting/Raises.antt =====
-- Raises in engine.rs: what is legal is carried out as asked, and what is not is normalised.
use vibe_poker.Base.{
  ℕ, ◌+◌, ◌-◌, ◌≤◌, ◌<◌, min, ◌≡◌, refl, ◌∙◌, true, Bool, [], ◌∷◌, some, arith, get_elem?, set,
  get_elem?-lt, get_elem?-set_self, u32_mod, add32, sub32, add32_fits, sub32_fits, Bool-cases, leb,
  inl, inr, ◌++◌, not-lt→ltb, leb→le, lt→ltb, le→leb,
}
use vibe_poker.Game.State.{PlayerState, GameState, BettingRules}
use vibe_poker.Game.Action.{Action, raise, is_legal}
use vibe_poker.Game.Event.{action_taken}
use vibe_poker.Game.Betting.{
  Applied, pay, raise_seat, all_in_seat, reopen, act, apply_action, normalize_raise,
  normalize_action, can_raise, max_raise, legal_for, pot_total,
}

-- The numbers of a player and of the bet to come fit a `u32`.
pub record Fits (s : GameState) (p : PlayerState) : Type 0 where
  pub player_fits : p.stack + p.bet_this_street < u32_mod
  pub bet_fits : s.current_bet + s.min_raise_increment < u32_mod

-- Where a raise is offered at all, the largest one does not exceed the player's chips.
max_raise-le :
    (rules : BettingRules) (s : GameState) (p : PlayerState) (can_reopen : Bool)
    → Fits s p
    → can_raise rules s p can_reopen ≡ true
    → max_raise rules s p ≤ p.stack + p.bet_this_street
unfolding can_raise max_raise
max_raise-le rules s p can_reopen f h =
    ground
      (arith, add32_fits p.stack p.bet_this_street, add32_fits s.current_bet s.min_raise_increment)

legal_raise_bounds :
    (rules : BettingRules) (s : GameState) (p : PlayerState) (can_reopen : Bool) (amount : ℕ)
    → Fits s p
    → is_legal (legal_for rules s p can_reopen) (raise amount) ≡ true
    → (s.current_bet + s.min_raise_increment ≤ amount)
      × (amount ≤ p.stack + p.bet_this_street)
      × (can_reopen ≡ true)
unfolding is_legal legal_for can_raise
legal_raise_bounds rules s p can_reopen amount f h =
    ground
      (arith, max_raise-le rules s p can_reopen f, add32_fits s.current_bet s.min_raise_increment)

-- A raise that leaves the player chips.
pub raise_seat_lem :
    (s : GameState) (seat : ℕ) (p : PlayerState) (amount : ℕ)
    → Fits s p
    → p.bet_this_street ≤ amount
    → s.current_bet ≤ amount
    → amount < p.stack + p.bet_this_street
    → let t = (raise_seat s seat p amount).state in
      (t.current_bet ≡ amount)
      × (t.min_raise_increment ≡ amount - s.current_bet)
      × (t.players ≡ set s.players seat (pay p (amount - p.bet_this_street)))
      × ((pay p (amount - p.bet_this_street)).bet_this_street ≡ amount)
unfolding raise_seat pay
raise_seat_lem s seat p amount f b c h =
    let paid : min (amount - p.bet_this_street) p.stack ≡ amount - p.bet_this_street =
      omega arith in
    let total : add32 p.bet_this_street (amount - p.bet_this_street) ≡ amount =
      add32_fits p.bet_this_street (amount - p.bet_this_street) (omega (arith, f.player_fits))
      ∙ omega arith in
    rw (paid, total)
      (refl, sub32_fits amount s.current_bet c (omega (arith, f.player_fits)), refl, refl)

-- How the betting stands after a full raise of `seat` to `amount`.
pub record IsRaisedTo (s : GameState) (seat amount : ℕ) (r : Applied) : Type 0 where
  pub aggression : r.was_aggression ≡ true
  pub bet : r.state.current_bet ≡ amount
  pub increment : r.state.min_raise_increment ≡ amount - s.current_bet
  pub shorts : r.state.cumulative_short_increment ≡ 0
  pub aggressor : r.state.last_aggressor ≡ some seat
  pub after : PlayerState
  pub entry : get_elem? r.state.players seat ≡ some after
  pub street_bet : after.bet_this_street ≡ amount

module _ (s : GameState) (seat : ℕ) (p : PlayerState) (f : Fits s p)
    (g : get_elem? s.players seat ≡ some p) where
  raise_seat-IsRaisedTo :
      (amount : ℕ)
      → p.bet_this_street ≤ amount
      → s.current_bet ≤ amount
      → amount < p.stack + p.bet_this_street
      → IsRaisedTo s seat amount (raise_seat s seat p amount)
  raise_seat-IsRaisedTo amount b c h =
      let (bet, increment, players, mine) = raise_seat_lem s seat p amount f b c h in
      record {
        aggression = unfold raise_seat in refl;
        bet = bet;
        increment = increment;
        shorts = unfold raise_seat in refl;
        aggressor = unfold raise_seat in refl;
        after = pay p (amount - p.bet_this_street);
        entry = rw players (get_elem?-set_self s.players seat _ (get_elem?-lt s.players seat g));
        street_bet = mine;
      }

  all_in_seat-IsRaisedTo :
      (amount : ℕ)
      → amount ≡ p.stack + p.bet_this_street
      → s.current_bet < amount
      → s.current_bet + s.min_raise_increment ≤ amount
      → IsRaisedTo s seat amount (all_in_seat s seat p)
  unfolding all_in_seat reopen
  all_in_seat-IsRaisedTo amount e c m =
      let total : add32 p.bet_this_street p.stack ≡ amount =
        add32_fits p.bet_this_street p.stack (omega (arith, f.player_fits)) ∙ omega arith in
      let step : sub32 amount s.current_bet ≡ amount - s.current_bet =
        sub32_fits amount s.current_bet (omega arith) (omega (arith, f.player_fits)) in
      rw
        (
          total,
          step,
          lt→ltb s.current_bet amount c,
          le→leb s.min_raise_increment (amount - s.current_bet) (omega arith),
        )
        (record {
          aggression = refl;
          bet = refl;
          increment = refl;
          shorts = refl;
          aggressor = refl;
          after = _;
          entry = get_elem?-set_self s.players seat _ (get_elem?-lt s.players seat g);
          street_bet = refl;
        })

emit-IsRaisedTo :
    (s : GameState) (seat amount : ℕ) (r q : Applied)
    → q.state ≡ r.state
    → q.was_aggression ≡ r.was_aggression
    → IsRaisedTo s seat amount r
    → IsRaisedTo s seat amount q
emit-IsRaisedTo s seat amount r q e a h = record {
  aggression = a ∙ h.aggression;
  bet = rw e h.bet;
  increment = rw e h.increment;
  shorts = rw e h.shorts;
  aggressor = rw e h.aggressor;
  after = h.after;
  entry = rw e h.entry;
  street_bet = h.street_bet;
}

-- The action that a legal raise is normalised to, and its effect before the event is emitted.
carried_out :
    (s : GameState) (seat : ℕ) (p : PlayerState) (amount : ℕ)
    → Fits s p
    → p.bet_this_street ≤ s.current_bet
    → 0 < s.min_raise_increment
    → get_elem? s.players seat ≡ some p
    → s.current_bet + s.min_raise_increment ≤ amount
    → amount ≤ p.stack + p.bet_this_street
    → (r : Applied) × (act s seat (normalize_raise s p amount) ≡ some r)
      × IsRaisedTo s seat amount r
unfolding act normalize_raise
carried_out s seat p amount f b i g lo hi =
    elim (Bool-cases (leb p.stack (amount - p.bet_this_street))) [
      | inl e ↦ (
        all_in_seat s seat p,
        rw (e, g) refl,
        all_in_seat-IsRaisedTo s seat p f g amount
            (omega (arith, leb→le p.stack (amount - p.bet_this_street) e)) (omega arith) lo,
      )
      | inr e ↦ (
        raise_seat s seat p amount,
        rw (e, add32_fits s.current_bet s.min_raise_increment f.bet_fits, not-lt→ltb amount _ lo, g)
            refl,
        raise_seat-IsRaisedTo s seat p f g amount (omega arith) (omega arith) (ground arith),
      )
    ]

-- A raise that the legal actions allow is carried out as asked: it is normalised to an action that
-- makes `amount` the bet to match, reached by the seat's bet of the street, raises the minimum
-- increment to what it added, clears the short all-ins, names the seat the last aggressor, and counts
-- as aggression. It is assumed that the numbers fit a `u32`, that the seat's bet is not above the bet
-- to match and that the minimum increment is positive.
pub legal_raise_lem :
    (rules : BettingRules) (s : GameState) (seat : ℕ) (p : PlayerState) (can_reopen : Bool)
    (amount : ℕ)
    → Fits s p
    → p.bet_this_street ≤ s.current_bet
    → 0 < s.min_raise_increment
    → get_elem? s.players seat ≡ some p
    → is_legal (legal_for rules s p can_reopen) (raise amount) ≡ true
    → (a : Action) × (r : Applied) × (normalize_action s seat (raise amount) ≡ some a)
      × (apply_action s seat a ≡ some r)
      × IsRaisedTo s seat amount r
unfolding normalize_action apply_action
legal_raise_lem rules s seat p can_reopen amount f b i g legal =
    let (lo, hi, _) = legal_raise_bounds rules s p can_reopen amount f legal in
    let (r, e, raised) = carried_out s seat p amount f b i g lo hi in
    let a = normalize_raise s p amount in
    let q : Applied = record r {
      events = r.events ++ action_taken seat a (pot_total r.state) ∷ [];
    } in
    (a, q, rw g refl, rw e refl, emit-IsRaisedTo s seat amount r q refl refl raised)
