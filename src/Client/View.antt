-- ===== src/Client/View.antt =====
-- crates/poker-client-core/src/view.rs: what the host renders.
use Prim.Native.String.{String}
use vibe_poker.Base.{ℕ, Bool, false, List, [], Option, none, some}
use vibe_poker.Game.State.{Street, preflop}
use vibe_poker.Game.Action.{LegalActions}
use vibe_poker.Net.Protocol.{TableInfo, SeatInfo, LifetimeStats}

pub data Phase : Type 0 where
  disconnected connecting authenticating lobby : Phase
  seated : (table_id seat : ℕ) → Phase
  ended : (reason : String) → Phase

pub record CurrentHand : Type 0 where
  pub hand_id : ℕ
  pub dealer : ℕ
  pub street : Street
  pub hole_cards : Option (ℕ × ℕ)
  pub board : List ℕ
  pub pot_total : ℕ
  pub folded_seats : List ℕ
  pub all_in_seats : List ℕ
  pub awaiting_action : Bool
  pub legal_actions : Option LegalActions
  pub action_deadline_ms : Option ℕ
  pub bet_this_street : List (ℕ × ℕ)

pub record ClientView : Type 0 where
  pub phase : Phase
  pub player_id : Option ℕ
  pub username : Option String
  pub lifetime_stats : Option LifetimeStats
  pub tables : List TableInfo
  pub seats : List SeatInfo
  pub button : Option ℕ
  pub current_hand : Option CurrentHand
  pub last_action_rejection : Option String

-- `ClientView::empty`
abbrev pub empty_view : ClientView
empty_view = record {
  phase = disconnected;
  player_id = none;
  username = none;
  lifetime_stats = none;
  tables = [];
  seats = [];
  button = none;
  current_hand = none;
  last_action_rejection = none;
}

abbrev seat_of : Phase → Option ℕ
seat_of (seated table_id seat) = some seat
seat_of _ = none

abbrev pub our_seat : ClientView → Option ℕ
our_seat v = seat_of v.phase

-- `CurrentHand::started`
abbrev pub started : ℕ → ℕ → CurrentHand
started hand_id dealer = record {
  hand_id = hand_id;
  dealer = dealer;
  street = preflop;
  hole_cards = none;
  board = [];
  pot_total = 0;
  folded_seats = [];
  all_in_seats = [];
  awaiting_action = false;
  legal_actions = none;
  action_deadline_ms = none;
  bet_this_street = [];
}
