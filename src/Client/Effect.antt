-- ===== src/Client/Effect.antt =====
-- crates/poker-client-core/src/effect.rs and intent.rs: what the core asks of its host, and what the
-- host asks of the core. Of a log line the level and the text are kept, and not the fields.
use Prim.Native.String.{String}
use vibe_poker.Base.{ℕ, Option}
use vibe_poker.Game.Action.{Action}
use vibe_poker.Net.Protocol.{ClientMessage}

pub data LogLevel : Type 0 where
  trace debug info warn error : LogLevel

pub data ScheduleKind : Type 0 where
  heartbeat prompt_deadline : ScheduleKind

pub data Effect : Type 0 where
  open_connection : (addr : String) → Effect
  close_connection : Effect
  send : ClientMessage → Effect
  persist_session_key : Option String → Effect
  schedule : ScheduleKind → (after_ms : ℕ) → Effect
  log : LogLevel → (message : String) → Effect

pub data Intent : Type 0 where
  connect : (addr : String) → Intent
  connection_opened : Intent
  register : (email username password : String) → (device_label : Option String) → Intent
  authenticate_password : (identifier password : String) → (device_label : Option String) → Intent
  authenticate_session : (key : String) → (device_label : Option String) → Intent
  list_tables : Intent
  join_table : (table_id buy_in : ℕ) → Intent
  leave_table : (table_id : ℕ) → Intent
  submit_action : Action → Intent
  heartbeat : Intent
  disconnect : Intent
  connection_lost : (reason : String) → Intent
