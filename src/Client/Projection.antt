-- ===== src/Client/Projection.antt =====
-- crates/poker-client-core/src/core.rs: what an engine event of our table does to the view.
use vibe_poker.Base.{
  ℕ, max, Bool, true, false, List, [], ◌∷◌, ◌++◌, map, Option, none, some, leb, length, ◌==◌,
  if◌then◌else◌,
}
use vibe_poker.Core.Card.{Card, index}
use vibe_poker.Game.State.{Street, showdown}
use vibe_poker.Game.Action.{Action, fold, check, call, raise, all_in}
use vibe_poker.Game.Event.{
  EngineEvent, hand_started, hole_cards_dealt, board_dealt, action_taken, player_all_in, hand_ended,
}
use vibe_poker.Client.View.{Phase, seated, CurrentHand, our_seat, started}
use vibe_poker.Client.Effect.{log, trace, debug, info, warn}
use vibe_poker.Client.Core.{ClientCore, Handled, on_hand}

abbrev pub has_seat : ℕ → List (ℕ × ℕ) → Bool
has_seat seat [] = false
has_seat seat ((s, b) ∷ bets) = if s == seat then true else has_seat seat bets

unfoldable pub update_bet : List (ℕ × ℕ) → (seat amount : ℕ) → List (ℕ × ℕ)
update_bet [] seat amount = (seat, amount) ∷ []
update_bet ((s, b) ∷ bets) seat amount =
    let rest = update_bet bets seat amount in
    if s == seat then (s, amount) ∷ bets else (s, b) ∷ rest

-- `iter().map(|&(_, b)| b).max().unwrap_or(0)`
unfoldable pub current_max : List (ℕ × ℕ) → ℕ
current_max [] = 0
current_max ((s, b) ∷ bets) = max b (current_max bets)

-- `Vec::contains`
unfoldable pub contains : List ℕ → ℕ → Bool
contains [] x = false
contains (y ∷ ys) x = if y == x then true else contains ys x

unfoldable pub push_new : List ℕ → ℕ → List ℕ
unfolding contains
push_new xs x = if contains xs x then xs else xs ++ (x ∷ [])

-- Are we seated at this table?
abbrev pub is_at : ℕ → Phase → Bool
is_at table_id (seated t seat) = t == table_id
is_at table_id _ = false

abbrev pub at_seat : Option ℕ → ℕ → Bool
at_seat none seat = false
at_seat (some s) seat = s == seat

-- The bets that the table shows after an action.
unfoldable pub bets_after : Action → ℕ → List (ℕ × ℕ) → List (ℕ × ℕ)
unfolding update_bet current_max
bets_after fold seat bets = bets
bets_after check seat bets = update_bet bets seat (current_max bets)
bets_after call seat bets = update_bet bets seat (current_max bets)
bets_after (raise to) seat bets = update_bet bets seat to
bets_after all_in seat bets = bets

abbrev pub is_fold : Action → Bool
is_fold fold = true
is_fold _ = false

unfoldable pub hand_after_action : ℕ → Action → ℕ → CurrentHand → CurrentHand
unfolding push_new bets_after
hand_after_action seat action pot_total h = record h {
  pot_total = pot_total;
  folded_seats = if is_fold action then push_new h.folded_seats seat else h.folded_seats;
  bet_this_street = bets_after action seat h.bet_this_street;
}

unfoldable pub hand_after_board : Street → List Card → CurrentHand → CurrentHand
hand_after_board street cards h = record h {
  street = street;
  board = h.board ++ map index cards;
  bet_this_street = [];
}

abbrev show_river : CurrentHand → CurrentHand
show_river h = if leb 5 (length h.board) then record h { street = showdown } else h

abbrev no_hand : ClientCore → ClientCore
no_hand c = record c { view = record (c.view) { current_hand = none }; active_prompt = none }

unfoldable pub project : EngineEvent → ClientCore → Handled
unfolding hand_after_action hand_after_board push_new update_bet
project (hand_started hand_id dealer deck_seed) c = (
  record c {
    view = record (c.view) {
      current_hand = some (started hand_id dealer);
      last_action_rejection = none;
    };
    active_prompt = none;
  },
  log info "core: hand started" ∷ [],
)
project (hole_cards_dealt seat cards) c =
    if at_seat (our_seat c.view) seat
    then (
      on_hand (λ h. record h { hole_cards = some (index cards.0, index cards.1) }) c,
      log debug "core: hole cards dealt to us" ∷ [],
    )
    else (
      c,
      log trace "core: HoleCardsDealt for another seat (unexpected; server should mask)" ∷ [],
    )
project (board_dealt street cards) c = (
  on_hand (hand_after_board street cards) c,
  elim (c.view.current_hand) [ none ↦ [] | some h ↦ log debug "core: board dealt" ∷ [] ],
)
project (action_taken seat action pot_total) c =
    (on_hand (hand_after_action seat action pot_total) c, log debug "core: action taken" ∷ [])
project (player_all_in seat total_committed) c = (
  on_hand
      (λ h. record h {
        all_in_seats = push_new h.all_in_seats seat;
        bet_this_street = update_bet h.bet_this_street seat total_committed;
      })
      c,
  log debug "core: player all-in" ∷ [],
)
project (hand_ended hand_id result) c =
    (no_hand (on_hand show_river c), log info "core: hand ended" ∷ [])

unfoldable pub project_engine_event : ℕ → EngineEvent → ClientCore → Handled
unfolding project
project_engine_event table_id event c =
    if is_at table_id c.view.phase
    then project event c
    else (c, log warn "core: TableEvent for non-current table; ignoring" ∷ [])
