-- ===== src/Game/Betting/Ledger.antt =====
-- The chips of a hand are accounted for: what an action of engine.rs takes from a stack it adds to
-- the player's stake, and the pot with the bets of the street is the sum of the stakes.
use vibe_poker.Base.{
  ℕ, ◌+◌, ◌-◌, ◌≤◌, ◌<◌, min, ◌≡◌, ◌≢◌, refl, ◌∙◌, List, [], ◌∷◌, some, arith, All, All-get,
  All-set, get_elem?, set, get_elem?-set_ne, set-get_elem?, ap, sym, ◌++◌, sum_of, sum_of-set,
  le-sum_of, u32_mod, add32, add32_fits, sub32_fits,
}
use vibe_poker.Game.State.{PlayerState, PlayerStatus, Pot, GameState}
use vibe_poker.Game.Action.{Action, fold, check, call, raise}
use vibe_poker.Game.Event.{action_taken}
use vibe_poker.Game.Betting.{
  Applied, pay, settle, fold_seat, call_seat, raise_seat, all_in_seat, act, apply_action, pot_total,
}

abbrev pub wealth : PlayerState → ℕ
wealth p = p.stack + p.total_committed

-- The chips that the players brought to the hand.
abbrev pub chips : List PlayerState → ℕ
chips = sum_of wealth

abbrev pub bets : List PlayerState → ℕ
bets = sum_of (λ (p : PlayerState). p.bet_this_street)

abbrev pub stakes : List PlayerState → ℕ
stakes = sum_of (λ (p : PlayerState). p.total_committed)

-- The books of a hand: the chips fit a `u32`, a street's bet is part of its player's stake, and the
-- pot and the bets not yet collected are the stakes.
pub record Ledger (ps : List PlayerState) (pot : Pot) : Type 0 where
  pub bounded : chips ps < u32_mod
  pub within : All (λ (p : PlayerState). p.bet_this_street ≤ p.total_committed) ps
  pub balanced : pot.main + bets ps ≡ stakes ps
  pub no_side : pot.side ≡ []

-- A player's chips move from the stack to the bet.
pub record Trade (p q : PlayerState) : Type 0 where
  pub kept : wealth q ≡ wealth p
  pub staked : q.bet_this_street + p.total_committed ≡ p.bet_this_street + q.total_committed
  pub covered : q.bet_this_street ≤ q.total_committed

pub Trade-Ledger :
    (ps : List PlayerState) (pot : Pot) (seat : ℕ) (p q : PlayerState)
    → get_elem? ps seat ≡ some p
    → Trade p q
    → Ledger ps pot
    → Ledger (set ps seat q) pot × (chips (set ps seat q) ≡ chips ps)
Trade-Ledger ps pot seat p q g t l =
    let c = sum_of-set wealth ps seat p q g in
    let b = sum_of-set (λ (r : PlayerState). r.bet_this_street) ps seat p q g in
    let s = sum_of-set (λ (r : PlayerState). r.total_committed) ps seat p q g in
    (
      record {
        bounded = omega (arith, c, t.kept, l.bounded);
        within =
            All-set (λ (r : PlayerState). r.bet_this_street ≤ r.total_committed) ps seat q l.within
              t.covered;
        balanced = omega (arith, b, s, t.staked, l.balanced);
        no_side = l.no_side;
      },
      omega (arith, c, t.kept),
    )

pub pay-Trade :
    (p : PlayerState) (paid : ℕ)
    → wealth p < u32_mod
    → p.bet_this_street ≤ p.total_committed
    → paid ≤ p.stack
    → Trade p (pay p paid)
unfolding pay
pay-Trade p paid w b h = omega (
  arith,
  sub32_fits p.stack paid h (omega arith),
  add32_fits p.bet_this_street paid (omega arith),
  add32_fits p.total_committed paid (omega arith),
)

pub settle-Trade : (p q : PlayerState) (seat : ℕ) → Trade p q → Trade p (settle seat q).0
unfolding settle
settle-Trade p q seat t = ground arith

-- An action writes one player's entry, by a trade, and leaves the pot alone.
pub record Touches (s : GameState) (seat : ℕ) (p : PlayerState) (r : Applied) : Type 0 where
  pub after : PlayerState
  pub trade : Trade p after
  pub written : r.state.players ≡ set s.players seat after
  pub pot_kept : r.state.pot ≡ s.pot

module _ (s : GameState) (seat : ℕ) (p : PlayerState) (w : wealth p < u32_mod)
    (b : p.bet_this_street ≤ p.total_committed) where
  fold_seat-Touches : Touches s seat p (fold_seat s seat p)
  unfolding fold_seat
  fold_seat-Touches = record { after = _; trade = omega arith; written = refl; pot_kept = refl }

  call_seat-Touches : Touches s seat p (call_seat s seat p)
  unfolding call_seat
  call_seat-Touches = record {
    after = (settle seat (pay p (min (s.current_bet - p.bet_this_street) p.stack))).0;
    trade =
        settle-Trade p _ seat
          (pay-Trade p (min (s.current_bet - p.bet_this_street) p.stack) w b (omega arith));
    written = refl;
    pot_kept = refl;
  }

  raise_seat-Touches : (amount : ℕ) → Touches s seat p (raise_seat s seat p amount)
  unfolding raise_seat
  raise_seat-Touches amount = record {
    after = pay p (min (amount - p.bet_this_street) p.stack);
    trade = pay-Trade p (min (amount - p.bet_this_street) p.stack) w b (omega arith);
    written = refl;
    pot_kept = refl;
  }

  all_in_seat-Touches : Touches s seat p (all_in_seat s seat p)
  unfolding all_in_seat
  all_in_seat-Touches = record {
    after = record p {
      stack = 0;
      bet_this_street = add32 p.bet_this_street p.stack;
      total_committed = add32 p.total_committed p.stack;
      status = PlayerStatus.all_in;
    };
    trade = omega (
      arith,
      add32_fits p.bet_this_street p.stack (omega arith),
      add32_fits p.total_committed p.stack (omega arith),
    );
    written = ground arith;
    pot_kept = ground arith;
  }

  check-Touches :
      (r : Applied) → get_elem? s.players seat ≡ some p → r.state ≡ s → Touches s seat p r
  check-Touches r g e = record {
    after = p;
    trade = omega arith;
    written = ap (λ (t : GameState). t.players) e ∙ sym (set-get_elem? s.players seat p g);
    pot_kept = ap (λ (t : GameState). t.pot) e;
  }

  act-Touches :
      (a : Action)
      → get_elem? s.players seat ≡ some p
      → (r : Applied) × (act s seat a ≡ some r) × Touches s seat p r
  unfolding act
  act-Touches fold g = (fold_seat s seat p, rw g, fold_seat-Touches)
  act-Touches check g = (_, refl, check-Touches _ g refl)
  act-Touches call g = (call_seat s seat p, rw g, call_seat-Touches)
  act-Touches (raise amount) g = (raise_seat s seat p amount, rw g, raise_seat-Touches amount)
  act-Touches Action.all_in g = (all_in_seat s seat p, rw g, all_in_seat-Touches)

-- Every action of a seat at the table goes through, and keeps the books: no chip is lost or made,
-- the pot and the bets still add up to the stakes, the pot itself and every other seat are left as
-- they were.
pub apply_action-Ledger :
    (s : GameState) (seat : ℕ) (p : PlayerState) (a : Action)
    → get_elem? s.players seat ≡ some p
    → Ledger s.players s.pot
    → (r : Applied) × (apply_action s seat a ≡ some r)
      × Ledger r.state.players r.state.pot
      × (chips r.state.players ≡ chips s.players)
      × (r.state.pot ≡ s.pot)
      × ((j : ℕ) → seat ≢ j → get_elem? r.state.players j ≡ get_elem? s.players j)
unfolding apply_action
apply_action-Ledger s seat p a g l =
    let (r, e, t) = act-Touches s seat p fits within a g in
    let (l', c) = Trade-Ledger s.players s.pot seat p t.after g t.trade l in
    (
      record r { events = r.events ++ action_taken seat a (pot_total r.state) ∷ [] },
      rw e refl,
      rw (t.written, t.pot_kept) l',
      rw t.written c,
      t.pot_kept,
      λ j n. ap (λ ps. get_elem? ps j) t.written ∙ get_elem?-set_ne s.players seat j t.after n,
    )
  where
    fits : wealth p < u32_mod
    fits = omega (arith, le-sum_of wealth s.players seat p g, l.bounded)

    within : p.bet_this_street ≤ p.total_committed
    within =
        All-get (λ (q : PlayerState). q.bet_this_street ≤ q.total_committed) s.players seat p
          l.within g
