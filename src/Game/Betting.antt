-- ===== src/Game/Betting.antt =====
-- crates/poker-engine/src/game/engine.rs, one action: legality, normalisation and its effect on the
-- state. `none` is a panic (a seat out of range); debug assertions are off, as in a release build.
pub mod Ledger
pub mod Raises
pub mod Rule47
pub mod Live
pub mod Acted
use vibe_poker.Base.{
  ℕ, ◌+◌, ◌-◌, ◌^◌, min, Bool, true, false, ◌&&◌, List, [], ◌∷◌, ◌++◌, Option, none, some, ◌>>=◌,
  get_elem?, set, sum32, add32, sub32, u32_mod, ltb, leb, ◌==◌, if◌then◌else◌,
}
use vibe_poker.Game.State.{
  PlayerState, PlayerStatus, GameState, Pot, total, BettingRules, BetVariant, no_limit, pot_limit,
  fixed_limit,
}
use vibe_poker.Game.Action.{Action, LegalActions, fold, check, call, raise}
use vibe_poker.Game.Event.{EngineEvent, action_taken, player_all_in}

-- `Engine::normalize_action` on a raise; a saturating subtraction is `-` on ℕ.
unfoldable pub normalize_raise : GameState → PlayerState → ℕ → Action
normalize_raise s p amount =
    let additional = amount - p.bet_this_street in
    let owed = s.current_bet - p.bet_this_street in
    if leb p.stack additional
    then Action.all_in
    else if ltb amount (add32 s.current_bet s.min_raise_increment)
    then (if owed == 0 then check else call)
    else raise amount

unfoldable pub normalize_action : GameState → ℕ → Action → Option Action
unfolding normalize_raise
normalize_action s seat (raise amount) = do
  p ← get_elem? s.players seat
  some (normalize_raise s p amount)
normalize_action s seat a = some a

-- `Engine::compute_legal_actions` for the player `p`.
unfoldable pub can_raise : BettingRules → GameState → PlayerState → Bool → Bool
can_raise rules s p can_reopen =
    let min_raise_total = add32 s.current_bet s.min_raise_increment in
    can_reopen && (elim rules.variant [
      | no_limit ↦ ltb min_raise_total (add32 p.stack p.bet_this_street)
      | pot_limit ↦ ltb min_raise_total (add32 p.stack p.bet_this_street)
      | fixed_limit ↦ leb min_raise_total (add32 p.stack p.bet_this_street)
    ])

unfoldable pub max_raise : BettingRules → GameState → PlayerState → ℕ
max_raise rules s p =
    let owed = s.current_bet - p.bet_this_street in
    let pot_after_call = add32 (total s.pot) owed in
    elim rules.variant [
      | no_limit ↦ add32 p.stack p.bet_this_street
      | pot_limit ↦
          min (add32 p.stack p.bet_this_street) (add32 (add32 owed pot_after_call) pot_after_call)
      | fixed_limit ↦ add32 s.current_bet s.min_raise_increment
    ]

unfoldable pub legal_for : BettingRules → GameState → PlayerState → Bool → LegalActions
unfolding can_raise max_raise
legal_for rules s p can_reopen =
    let owed = s.current_bet - p.bet_this_street in
    record {
      can_check = owed == 0;
      can_call = ltb 0 owed && ltb owed p.stack;
      call_amount = min owed p.stack;
      can_raise = can_raise rules s p can_reopen;
      min_raise = add32 s.current_bet s.min_raise_increment;
      max_raise = max_raise rules s p;
      all_in_amount = p.stack;
    }

unfoldable pub compute_legal_actions : BettingRules → GameState → ℕ → Bool → Option LegalActions
unfolding legal_for
compute_legal_actions rules s seat can_reopen = do
  p ← get_elem? s.players seat
  some (legal_for rules s p can_reopen)

-- `p.stack -= paid; p.bet_this_street += paid; p.total_committed += paid`
unfoldable pub pay : PlayerState → ℕ → PlayerState
pay p paid = record p {
  stack = sub32 p.stack paid;
  bet_this_street = add32 p.bet_this_street paid;
  total_committed = add32 p.total_committed paid;
}

-- `if p.stack == 0 { p.status = AllIn; sink.on_event(PlayerAllIn ..) }`
unfoldable pub settle : ℕ → PlayerState → PlayerState × List EngineEvent
settle seat p =
    if p.stack == 0
    then (record p { status = PlayerStatus.all_in }, player_all_in seat p.total_committed ∷ [])
    else (p, [])

-- The state after an action, whether the action was a raise, and the events emitted on the way.
pub record Applied : Type 0 where
  pub state : GameState
  pub was_aggression : Bool
  pub events : List EngineEvent

abbrev pub put : GameState → ℕ → PlayerState → GameState
put s seat p = record s { players = set s.players seat p }

unfoldable pub fold_seat : GameState → ℕ → PlayerState → Applied
fold_seat s seat p = record {
  state = put s seat (record p { status = PlayerStatus.folded });
  was_aggression = false;
  events = [];
}

unfoldable pub call_seat : GameState → ℕ → PlayerState → Applied
unfolding pay settle
call_seat s seat p =
    let owed = s.current_bet - p.bet_this_street in
    let (p', events) = settle seat (pay p (min owed p.stack)) in
    record { state = put s seat p'; was_aggression = false; events = events }

unfoldable pub raise_seat : GameState → ℕ → PlayerState → ℕ → Applied
unfolding pay
raise_seat s seat p amount =
    let prev_bet = p.bet_this_street in
    let paid = min (amount - prev_bet) p.stack in
    let new_total = add32 prev_bet paid in
    record {
      state = record (put s seat (pay p paid)) {
        min_raise_increment = sub32 new_total s.current_bet;
        cumulative_short_increment = 0;
        current_bet = new_total;
        last_aggressor = some seat;
      };
      was_aggression = true;
      events = [];
    }

-- `saturating_add` on `u32`
abbrev pub saturating_add : ℕ → ℕ → ℕ
saturating_add a b = min (a + b) (u32_mod - 1)

-- What an all-in above the current bet does to the betting: a full raise, or a short one.
unfoldable pub reopen : GameState → ℕ → ℕ → GameState × Bool
reopen s seat all_in_total =
    let increment = sub32 all_in_total s.current_bet in
    let shorts = saturating_add s.cumulative_short_increment increment in
    let raised = record s { current_bet = all_in_total; last_aggressor = some seat } in
    if ltb s.current_bet all_in_total
    then (if leb s.min_raise_increment increment
        then (
          record raised { min_raise_increment = increment; cumulative_short_increment = 0 },
          true,
        )
        else (
          record raised { cumulative_short_increment = shorts },
          leb s.min_raise_increment shorts,
        ))
    else (s, false)

unfoldable pub all_in_seat : GameState → ℕ → PlayerState → Applied
unfolding reopen
all_in_seat s seat p =
    let all_in_total = add32 p.bet_this_street p.stack in
    let p' = record p {
      stack = 0;
      bet_this_street = all_in_total;
      total_committed = add32 p.total_committed p.stack;
      status = PlayerStatus.all_in;
    } in
    let (s', aggression) = reopen (put s seat p') seat all_in_total in
    record {
      state = s';
      was_aggression = aggression;
      events = player_all_in seat p'.total_committed ∷ [];
    }

-- The match of `Engine::apply_action`; a check reads no player.
unfoldable pub act : GameState → ℕ → Action → Option Applied
unfolding fold_seat call_seat raise_seat all_in_seat
act s seat fold = do p ← get_elem? s.players seat; some (fold_seat s seat p)
act s seat check = some (record { state = s; was_aggression = false; events = [] })
act s seat call = do p ← get_elem? s.players seat; some (call_seat s seat p)
act s seat (raise amount) = do p ← get_elem? s.players seat; some (raise_seat s seat p amount)
act s seat Action.all_in = do p ← get_elem? s.players seat; some (all_in_seat s seat p)

abbrev pub pot_total : GameState → ℕ
pot_total s = add32 (total s.pot) (sum32 (λ (p : PlayerState). p.bet_this_street) s.players)

unfoldable pub apply_action : GameState → ℕ → Action → Option Applied
unfolding act
apply_action s seat a = do
  r ← act s seat a
  some (record r { events = r.events ++ action_taken seat a (pot_total r.state) ∷ [] })
