-- ===== src/Game/Betting/Acted.antt =====
-- What an action of a player who may act does to the hand, in engine.rs.
use vibe_poker.Base.{
  ℕ, ◌+◌, ◌-◌, ◌≤◌, ◌<◌, min, ◌≡◌, refl, true, [], some, arith, get_elem?, set, u32_mod, add32_fits,
  sub32_fits, set-get_elem?, sym, ◌∷◌, ◌++◌,
}
use vibe_poker.Game.State.{PlayerState, GameState, is_active}
use vibe_poker.Game.Action.{Action, fold, check, call, raise}
use vibe_poker.Game.Event.{action_taken}
use vibe_poker.Game.Betting.{
  Applied, fold_seat, call_seat, raise_seat, all_in_seat, reopen, act, apply_action,
  normalize_action, pot_total,
}
use vibe_poker.Game.Betting.Raises.{Fits, raise_seat_lem}
use vibe_poker.Game.Betting.Rule47.{IsNormal, Grows, normalized, raise-Grows, all_in-Grows}
use vibe_poker.Game.Betting.Ledger.{Trade, settle-Trade, pay-Trade}
use vibe_poker.Game.Betting.Live.{Live, fold-Live, call-Live, raise-Live, all_in-Live, after_all_in}

-- An action of a player who may act writes that player's entry, by a trade, and keeps the rest of
-- the hand; the bet to match does not fall, and the betting's numbers stay below `bound`.
pub record Acted (bound : ℕ) (s : GameState) (seat : ℕ) (p : PlayerState) (r : Applied)
    : Type 0 where
  pub after : PlayerState
  pub trade : Trade p after
  pub live : Live r.state.current_bet after
  pub written : r.state.players ≡ set s.players seat after
  pub pot_kept : r.state.pot ≡ s.pot
  pub board_kept : r.state.board ≡ s.board
  pub street_kept : r.state.street ≡ s.street
  pub grows : Grows s r
  pub bet_bound : r.state.current_bet ≤ bound
  pub increment_bound : r.state.min_raise_increment ≤ bound

module _ (bound : ℕ) (s : GameState) (seat : ℕ) (p : PlayerState) (f : Fits s p)
    (l : Live s.current_bet p) (active : is_active p.status ≡ true)
    (cap : p.stack + p.total_committed < u32_mod) (step : 0 < s.min_raise_increment)
    (covered : p.bet_this_street ≤ p.total_committed) (mine : p.stack + p.total_committed ≤ bound)
    (b : s.current_bet ≤ bound) (i : s.min_raise_increment ≤ bound) where
  fold-Acted : Acted bound s seat p (fold_seat s seat p)
  unfolding fold_seat
  fold-Acted = record {
    after = _;
    trade = omega arith;
    live = fold-Live s seat p f l active cap step;
    written = refl;
    pot_kept = refl;
    board_kept = refl;
    street_kept = refl;
    grows = omega arith;
    bet_bound = b;
    increment_bound = i;
  }

  call-Acted : Acted bound s seat p (call_seat s seat p)
  unfolding call_seat
  call-Acted = record {
    after = _;
    trade =
        settle-Trade p _ seat
          (pay-Trade p (min (s.current_bet - p.bet_this_street) p.stack) cap covered (omega arith));
    live = call-Live s seat p f l active cap step;
    written = refl;
    pot_kept = refl;
    board_kept = refl;
    street_kept = refl;
    grows = omega arith;
    bet_bound = b;
    increment_bound = i;
  }

  raise-Acted : (m : ℕ) → IsNormal s p (raise m) → Acted bound s seat p (raise_seat s seat p m)
  raise-Acted m n =
      let (bet, increment, _, _) =
        raise_seat_lem s seat p m f (omega (arith, l.matched, n.0)) (omega (arith, n.0)) n.1 in
      record {
        after = _;
        trade = pay-Trade p (min (m - p.bet_this_street) p.stack) cap covered (omega arith);
        live = raise-Live s seat p f l active cap step m n;
        written = unfold raise_seat in refl;
        pot_kept = unfold raise_seat in refl;
        board_kept = unfold raise_seat in refl;
        street_kept = unfold raise_seat in refl;
        grows = raise-Grows s seat p m f l.matched n;
        bet_bound = omega (arith, bet, n.1, covered, mine);
        increment_bound = omega (arith, increment, n.1, covered, mine);
      }

  all_in-Acted : Acted bound s seat p (all_in_seat s seat p)
  unfolding all_in_seat reopen
  all_in-Acted = record {
    after = after_all_in s seat p f l active cap step;
    trade = omega (
      arith,
      add32_fits p.bet_this_street p.stack (omega arith),
      add32_fits p.total_committed p.stack (omega arith),
    );
    live = all_in-Live s seat p f l active cap step;
    written = ground arith;
    pot_kept = ground arith;
    board_kept = ground arith;
    street_kept = ground arith;
    grows = all_in-Grows s seat p f;
    bet_bound = ground (
      arith,
      add32_fits p.bet_this_street p.stack,
      sub32_fits (p.bet_this_street + p.stack) s.current_bet,
      f.player_fits,
      b,
      i,
      covered,
      mine,
    );
    increment_bound = ground (
      arith,
      add32_fits p.bet_this_street p.stack,
      sub32_fits (p.bet_this_street + p.stack) s.current_bet,
      f.player_fits,
      b,
      i,
      covered,
      mine,
    );
  }

  act-Acted :
      (a : Action)
      → IsNormal s p a
      → get_elem? s.players seat ≡ some p
      → (r : Applied) × (act s seat a ≡ some r) × Acted bound s seat p r
  unfolding act
  act-Acted fold n g = (fold_seat s seat p, rw g refl, fold-Acted)
  act-Acted call n g = (call_seat s seat p, rw g refl, call-Acted)
  act-Acted (raise m) n g = (raise_seat s seat p m, rw g refl, raise-Acted m n)
  act-Acted Action.all_in n g = (all_in_seat s seat p, rw g refl, all_in-Acted)
  act-Acted check n g = (
    _,
    refl,
    record {
      after = p;
      trade = omega arith;
      live = l;
      written = sym (set-get_elem? s.players seat p g);
      pot_kept = refl;
      board_kept = refl;
      street_kept = refl;
      grows = omega arith;
      bet_bound = b;
      increment_bound = i;
    },
  )

  -- Whatever a player who may act submits is normalised to an action that goes through.
  pub submit-Acted :
      (a : Action)
      → get_elem? s.players seat ≡ some p
      → (n : Action) × (r : Applied) × (normalize_action s seat a ≡ some n)
        × (apply_action s seat n ≡ some r)
        × Acted bound s seat p r
  unfolding apply_action
  submit-Acted a g =
      let (n, e, normal) = normalized s seat p a f l.matched g in
      let (r, h, t) = act-Acted n normal g in
      (
        n,
        record r { events = r.events ++ action_taken seat n (pot_total r.state) ∷ [] },
        e,
        rw h refl,
        record {
          after = t.after;
          trade = t.trade;
          live = t.live;
          written = t.written;
          pot_kept = t.pot_kept;
          board_kept = t.board_kept;
          street_kept = t.street_kept;
          grows = record {
            bet_grows = t.grows.bet_grows;
            increment_grows = t.grows.increment_grows;
            pegged = t.grows.pegged;
            full = t.grows.full;
          };
          bet_bound = t.bet_bound;
          increment_bound = t.increment_bound;
        },
      )
