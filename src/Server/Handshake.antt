-- ===== src/Server/Handshake.antt =====
-- crates/poker-server/src/session.rs: the handshake of a session, and its start.
pub mod Revoked
use Prim.Native.String.{String}
use vibe_poker.Base.{
  ℕ, Bool, true, false, List, [], ◌∷◌, ◌++◌, length, Option, none, some, ◌==◌, if◌then◌else◌, not,
}
use vibe_poker.Net.Protocol.{
  AuthMode, by_password, by_session, ClientMessage, ServerMessage, protocol_version,
}
use vibe_poker.Net.Names.{RejectReason, as_str}
use vibe_poker.Server.Store.{Store, new_connection}
use vibe_poker.Server.Takeover.{reconnect_player}
use vibe_poker.Server.Manager.{World, current_table}
use vibe_poker.Server.Session.{table_of, send_waiting}
use vibe_poker.Server.Table.{Table}
use vibe_poker.Server.Registry.{
  RegistryError, invalid_username, invalid_email, invalid_password, username_in_use, email_in_use,
  bad_credentials, session_revoked, unknown_session, database, hash_error, Registry, Answer,
  AuthSuccess, accepted, refused,
}
use vibe_poker.Server.Entrance.{register, authenticate_password, authenticate_session}

-- `registry_error_to_reason`
abbrev pub registry_error_to_reason : RegistryError → RejectReason
registry_error_to_reason invalid_username = RejectReason.invalid_username
registry_error_to_reason invalid_email = RejectReason.invalid_email
registry_error_to_reason invalid_password = RejectReason.invalid_password
registry_error_to_reason username_in_use = RejectReason.username_in_use
registry_error_to_reason email_in_use = RejectReason.email_in_use
registry_error_to_reason bad_credentials = RejectReason.bad_credentials
registry_error_to_reason session_revoked = RejectReason.session_revoked
registry_error_to_reason unknown_session = RejectReason.unknown_session
registry_error_to_reason _ = RejectReason.internal_error

-- `send_rejected`: what is written to the client.
abbrev pub rejection : RejectReason → ServerMessage
rejection reason = ServerMessage.rejected protocol_version (as_str reason)

-- The client is in, or is told why not, or the session ends without a word.
pub data Outcome : Type 0 where
  entered : AuthSuccess → Registry → Outcome
  turned_away : ServerMessage → Outcome
  cut_off : Outcome

abbrev pub outcome_of : Answer → Outcome
outcome_of (accepted a r) = entered a r
outcome_of (refused e) = turned_away (rejection (registry_error_to_reason e))

abbrev pub if_version : ℕ → Outcome → Outcome
if_version version outcome =
    if version == protocol_version
    then outcome
    else turned_away (rejection RejectReason.protocol_mismatch)

-- The salt, the time and the key are those of this handshake.
module _ (hash_password : (password salt : String) → Option String)
    (verify_password : (password hash : String) → Option Bool) where
  unfoldable pub authenticate : AuthMode → Option String → (now : ℕ) → String → Registry → Answer
  unfolding authenticate_password authenticate_session
  authenticate (by_password identifier password) device_label now key r =
      authenticate_password hash_password verify_password identifier password device_label now key r
  authenticate (by_session old) device_label now key r = authenticate_session old r

  -- `perform_handshake`, on the first message.
  unfoldable pub perform_handshake :
      ClientMessage → (salt : String) → (now : ℕ) → String → Registry → Outcome
  unfolding authenticate register
  perform_handshake (ClientMessage.register version email username password device_label) salt now
        key r =
      if_version version (
        outcome_of (
          register hash_password verify_password email username password device_label salt now key
            r))
  perform_handshake (ClientMessage.authenticate version mode device_label) salt now key r =
      if_version version (outcome_of (authenticate mode device_label now key r))
  perform_handshake _ salt now key r = cut_off

abbrev pub welcome_to : AuthSuccess → ServerMessage
welcome_to a =
    ServerMessage.welcome protocol_version a.player.player_id a.player.username a.session_key
      a.player.stats

-- The seat that the player left behind is handed over to the connection.
unfoldable pub resume_seat : (conn player_id : ℕ) → Option Table → World → World
unfolding reconnect_player
resume_seat conn player_id none s = s
resume_seat conn player_id (some t) s = record s {
  store = (reconnect_player conn player_id t s.store).1;
}

abbrev pub add_connection : AuthSuccess → Store → Store
add_connection a w = record w {
  connections =
      w.connections ++ (new_connection a.player.player_id a.player.username a.session_id ∷ []);
}

-- The start of `run_session` after the handshake, with the name of the new connection.
unfoldable pub start_session : AuthSuccess → World → ℕ × World
unfolding resume_seat
start_session a s =
    let conn = length s.store.connections in
    let welcomed =
      send_waiting conn (welcome_to a) (record s { store = add_connection a s.store }) in
    (
      conn,
      resume_seat conn a.player.player_id
          (table_of welcomed (current_table a.player.player_id welcomed)) welcomed,
    )
