-- ===== src/Net/Protocol.antt =====
-- crates/poker-engine/src/net/protocol.rs: the messages of the wire protocol.
use Prim.Native.String.{String}
use vibe_poker.Base.{ℕ, List, Option}
use vibe_poker.Game.Action.{Action, LegalActions}
use vibe_poker.Game.Event.{EngineEvent}

abbrev pub protocol_version : ℕ
protocol_version = 5

pub record TableInfo : Type 0 where
  pub table_id : ℕ
  pub name : String
  pub small_blind : ℕ
  pub big_blind : ℕ
  pub max_seats : ℕ
  pub seated : ℕ
  pub default_buy_in : ℕ

pub record SeatInfo : Type 0 where
  pub seat : ℕ
  pub player_id : ℕ
  pub username : String
  pub stack : ℕ

-- `chip_delta : i64` is its bit pattern.
pub record LifetimeStats : Type 0 where
  pub hands : ℕ
  pub voluntary_pf : ℕ
  pub raised_pf : ℕ
  pub aggressive_actions : ℕ
  pub passive_actions : ℕ
  pub showdowns : ℕ
  pub chip_delta : ℕ

pub data AuthMode : Type 0 where
  by_password : (identifier password : String) → AuthMode
  by_session : (key : String) → AuthMode

pub data ClientMessage : Type 0 where
  register :
      (protocol_version : ℕ)
      → (email username password : String) → (device_label : Option String) → ClientMessage
  authenticate : (protocol_version : ℕ) → AuthMode → (device_label : Option String) → ClientMessage
  list_tables : ClientMessage
  join_table : (table_id buy_in : ℕ) → ClientMessage
  leave_table : (table_id : ℕ) → ClientMessage
  submit_action : (table_id hand_id : ℕ) → Action → ClientMessage
  request_replay : (hand_id : ℕ) → ClientMessage
  heartbeat : ClientMessage
  disconnect : ClientMessage

-- A replay carries messages itself.
mutual
  pub data ServerMessage : Type 0 where
    welcome :
        (protocol_version player_id : ℕ)
        → (username session_key : String) → LifetimeStats
        → ServerMessage
    rejected : (protocol_version : ℕ) → (reason : String) → ServerMessage
    table_list : List TableInfo → ServerMessage
    joined_table : (table_id seat : ℕ) → List SeatInfo → ServerMessage
    left_table : (table_id : ℕ) → ServerMessage
    table_event : (table_id : ℕ) → EngineEvent → ServerMessage
    table_state : (table_id : ℕ) → List SeatInfo → (button : ℕ) → ServerMessage
    prompt : (table_id hand_id seat : ℕ) → LegalActions → (deadline_ms : ℕ) → ServerMessage
    action_rejected : (reason : String) → ServerMessage
    replay_events : (hand_id : ℕ) → ServerMessages → ServerMessage
    heartbeat : ServerMessage
    goodbye : (reason : String) → ServerMessage

  pub data ServerMessages : Type 0 where
    end : ServerMessages
    next : ServerMessage → ServerMessages → ServerMessages
