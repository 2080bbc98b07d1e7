-- ===== src/Game/Betting/Rule47.antt =====
-- What an action of engine.rs does to the bet to match and to the minimum increment (TDA rules 43
-- and 47A).
use mathlib.Core.Bool.{false≢true}
use vibe_poker.Base.{
  ℕ, ◌+◌, ◌≤◌, ◌<◌, ◌≡◌, refl, sym, false, [], ◌∷◌, some, arith, get_elem?, add32_fits, sub32_fits,
  ◌++◌, ◌⊎◌, inl, inr,
}
use vibe_poker.Game.State.{PlayerState, GameState}
use vibe_poker.Game.Action.{Action, fold, check, call, raise}
use vibe_poker.Game.Event.{action_taken}
use vibe_poker.Game.Betting.{
  Applied, fold_seat, call_seat, raise_seat, all_in_seat, reopen, act, apply_action,
  normalize_raise, normalize_action, pot_total,
}
use vibe_poker.Game.Betting.Raises.{Fits, raise_seat_lem}

-- What normalisation promises of a raise: it is a full one, and leaves the player chips.
abbrev pub IsNormal : GameState → PlayerState → Action → Type 0
IsNormal s p (raise m) =
    (s.current_bet + s.min_raise_increment ≤ m) × (m < p.stack + p.bet_this_street)
IsNormal s p a = Unit {0}

pub normalize_raise-IsNormal :
    (s : GameState) (p : PlayerState) (amount : ℕ)
    → Fits s p
    → p.bet_this_street ≤ s.current_bet
    → IsNormal s p (normalize_raise s p amount)
unfolding normalize_raise
normalize_raise-IsNormal s p amount f b =
    ground (arith, add32_fits s.current_bet s.min_raise_increment f.bet_fits)

-- The bet to match and the minimum increment did not fall, and the latter moved only in a full raise:
-- one that counts as aggression and brings the bet up by what the increment was, or by more.
pub record Grows (s : GameState) (r : Applied) : Type 0 where
  pub bet_grows : s.current_bet ≤ r.state.current_bet
  pub increment_grows : s.min_raise_increment ≤ r.state.min_raise_increment
  pub pegged : r.was_aggression ≡ false → r.state.min_raise_increment ≡ s.min_raise_increment
  pub full :
      (r.state.min_raise_increment ≡ s.min_raise_increment)
      ⊎ ((s.current_bet + s.min_raise_increment ≤ r.state.current_bet)
          × (r.state.current_bet ≡ s.current_bet + r.state.min_raise_increment))

pub all_in-Grows :
    (s : GameState) (seat : ℕ) (p : PlayerState) → Fits s p → Grows s (all_in_seat s seat p)
unfolding all_in_seat reopen
all_in-Grows s seat p f = ground (
  arith,
  add32_fits p.bet_this_street p.stack,
  sub32_fits (p.bet_this_street + p.stack) s.current_bet,
  f.player_fits,
)

pub raise-Grows :
    (s : GameState) (seat : ℕ) (p : PlayerState) (m : ℕ)
    → Fits s p
    → p.bet_this_street ≤ s.current_bet
    → IsNormal s p (raise m)
    → Grows s (raise_seat s seat p m)
raise-Grows s seat p m f b n =
    let (bet, increment, _, _) = raise_seat_lem s seat p m f (omega arith) (omega arith) n.1 in
    record {
      bet_grows = omega (arith, bet);
      increment_grows = omega (arith, increment);
      pegged = λ h. absurd (unfold raise_seat in false≢true (sym h));
      full = inr (omega (arith, bet, n.1, n.0), omega (arith, bet, increment));
    }

unmoved :
    (s : GameState) (r : Applied)
    → r.state.current_bet ≡ s.current_bet
    → r.state.min_raise_increment ≡ s.min_raise_increment
    → Grows s r
unmoved s r b i = record {
  bet_grows = omega arith;
  increment_grows = omega arith;
  pegged = λ _. i;
  full = inl i;
}

act-Grows :
    (s : GameState) (seat : ℕ) (p : PlayerState) (a : Action)
    → Fits s p
    → p.bet_this_street ≤ s.current_bet
    → IsNormal s p a
    → get_elem? s.players seat ≡ some p
    → (r : Applied) × (act s seat a ≡ some r) × Grows s r
unfolding act
act-Grows s seat p fold f b n g =
    (fold_seat s seat p, rw g, unfold fold_seat in unmoved s (fold_seat s seat p) refl refl)
act-Grows s seat p check f b n g = (_, refl, unmoved s _ refl refl)
act-Grows s seat p call f b n g =
    (call_seat s seat p, rw g, unfold call_seat in unmoved s (call_seat s seat p) refl refl)
act-Grows s seat p (raise m) f b n g = (raise_seat s seat p m, rw g, raise-Grows s seat p m f b n)
act-Grows s seat p Action.all_in f b n g = (all_in_seat s seat p, rw g, all_in-Grows s seat p f)

pub normalized :
    (s : GameState) (seat : ℕ) (p : PlayerState) (a : Action)
    → Fits s p
    → p.bet_this_street ≤ s.current_bet
    → get_elem? s.players seat ≡ some p
    → (b : Action) × (normalize_action s seat a ≡ some b) × IsNormal s p b
unfolding normalize_action
normalized s seat p (raise amount) f c g =
    (normalize_raise s p amount, rw g refl, normalize_raise-IsNormal s p amount f c)
normalized s seat p fold f c g = (fold, refl, tt)
normalized s seat p check f c g = (check, refl, tt)
normalized s seat p call f c g = (call, refl, tt)
normalized s seat p Action.all_in f c g = (Action.all_in, refl, tt)

-- Whatever a seat submits is normalised to an action that goes through. If that is a raise then it is
-- a full one and leaves the player chips. The bet to match and the minimum increment never fall, and
-- the increment moves only in an action that counts as aggression and brings the bet up by what the
-- increment was or by more, and is then what the bet rose by; so no short all-in moves it, also when
-- it reopens the betting. It is assumed that the numbers fit a `u32` and that the seat's bet is not
-- above the bet to match.
pub submit-Grows :
    (s : GameState) (seat : ℕ) (p : PlayerState) (a : Action)
    → Fits s p
    → p.bet_this_street ≤ s.current_bet
    → get_elem? s.players seat ≡ some p
    → (b : Action) × (r : Applied) × (normalize_action s seat a ≡ some b)
      × (apply_action s seat b ≡ some r)
      × IsNormal s p b
      × Grows s r
unfolding apply_action
submit-Grows s seat p a f c g =
    let (b, e, n) = normalized s seat p a f c g in
    let (r, h, grows) = act-Grows s seat p b f c n g in
    (
      b,
      record r { events = r.events ++ action_taken seat b (pot_total r.state) ∷ [] },
      e,
      rw h refl,
      n,
      record {
        bet_grows = grows.bet_grows;
        increment_grows = grows.increment_grows;
        pegged = grows.pegged;
        full = grows.full;
      },
    )
