-- ===== src/Tests/Registries.antt =====
-- The registry, the wire and the statistics at concrete inputs.
use Prim.Native.String.{String}
use vibe_poker.Base.{
  ◌||◌, ℕ, ◌+◌, ◌≤◌, ◌<◌, Bool, true, false, ◌≢◌, ◌⊎◌, ◌≡◌, refl, List, [], ◌∷◌, length, Option,
  none, some, arith, All,
}
use vibe_poker.Game.Action.{call, raise}
use vibe_poker.Game.Event.{EngineEvent, hand_started, action_taken, hand_ended}
use vibe_poker.Net.Names.{codes, is_valid_username, is_valid_email, is_valid_password}
use vibe_poker.Net.Frame.{max_frame_bytes, framed, failed, too_large, encode, parse_length_prefix}
use vibe_poker.Net.Wire.{closed, read_messages, write_messages}
use vibe_poker.Net.Wire.Streams.{read_messages-write_messages, encode_bounds}
use vibe_poker.Server.Round.{HandSeatRecord}
use vibe_poker.Server.Registry.{
  UserRow, SessionRow, Registry, Answer, AuthSuccess, accepted, refused, session_revoked,
  find_session, no_stats, enter, enter_with, issue_session, come_online, install_online,
}
use vibe_poker.Server.Entrance.{
  authenticate_password, authenticate_session, log_in, check_password, admit,
}
use vibe_poker.Server.Entrance.Sessions.{IsSingle, success_of, registry_of}
use vibe_poker.Server.Entrance.Logins.{authenticate_password_lem}
use vibe_poker.Server.Records.{
  repeats_seat, names_stranger, record_hand, fetch_hand, by_seat, count_hands,
}
use vibe_poker.Server.Records.Hands.{IsNumbered, record_hand_lem}
use vibe_poker.Net.Protocol.{AuthMode, by_password, by_session, ClientMessage, protocol_version}
use vibe_poker.Net.Names.{RejectReason}
use vibe_poker.Server.Handshake.{entered, turned_away, rejection, perform_handshake, authenticate}
use vibe_poker.Server.Handshake.Revoked.{perform_handshake-revoked}
use vibe_poker.Stats.{count_events, new_stats}
use vibe_poker.Stats.Counters.{IsOrdered, count_events-IsOrdered}

names_accepted : is_valid_username (codes "al.ice-1") ≡ true
unfolding is_valid_username
names_accepted = refl

names_refused : is_valid_username (codes "-alice") ≡ false
unfolding is_valid_username
names_refused = refl

emails_accepted : is_valid_email (codes "a@b.c") ≡ true
unfolding is_valid_email
emails_accepted = refl

emails_refused : is_valid_email (codes "a@b@c.d") ≡ false
unfolding is_valid_email
emails_refused = refl

passwords_refused : is_valid_password (codes "short") ≡ false
unfolding is_valid_password
passwords_refused = refl

-- A codec of numbers below 256, one byte each.
abbrev to_vec : ℕ → Option (List ℕ)
to_vec n = some (n ∷ [])

abbrev from_slice : List ℕ → Option ℕ
from_slice (n ∷ []) = some n
from_slice _ = none

to_vec-from_slice :
    (v : ℕ) (payload : List ℕ) → to_vec v ≡ some payload → from_slice payload ≡ some v
to_vec-from_slice v [] h = absurd (ground arith)
to_vec-from_slice v (n ∷ []) h = ground arith
to_vec-from_slice v (n ∷ m ∷ rest) h = absurd (ground arith)

abbrev frames : List ℕ
frames = 1 ∷ 0 ∷ 0 ∷ 0 ∷ 7 ∷ 1 ∷ 0 ∷ 0 ∷ 0 ∷ 9 ∷ []

written : write_messages to_vec from_slice (7 ∷ 9 ∷ []) ≡ framed frames
unfolding write_messages encode
written = refl

read_messages-write_messages_example :
    read_messages to_vec from_slice 2 frames ≡ (7 ∷ 9 ∷ [], closed)
read_messages-write_messages_example =
    read_messages-write_messages to_vec from_slice to_vec-from_slice (7 ∷ 9 ∷ []) frames written

encode_bounds_example :
    ((encode to_vec from_slice 7 ≡ failed (too_large 1)) × (max_frame_bytes < 1)
      ⊎ ((bytes : List ℕ) × (encode to_vec from_slice 7 ≡ framed bytes)
          × (length bytes ≡ 4 + 1)
          × (1 ≤ max_frame_bytes)))
    × ((n : ℕ) → parse_length_prefix 1 0 0 0 ≡ framed n → n ≤ max_frame_bytes)
encode_bounds_example = encode_bounds to_vec from_slice to_vec-from_slice 7 (7 ∷ []) 1 0 0 0 refl

abbrev hash_password : String → String → Option String
hash_password password salt = some password

abbrev verify_password : String → String → Option Bool
verify_password password hash = some true

abbrev alice : UserRow
alice = record { id = 1; email = "a@b.c"; username = "alice"; created_at = 5 }

abbrev old_session : SessionRow
old_session = record {
  id = 1;
  user_id = 1;
  key = "k1";
  device_label = none;
  created_at = 5;
  revoked_at = none;
}

abbrev before : Registry
before = record {
  db = record {
    users = alice ∷ [];
    passwords = (1, "hunter2hunter") ∷ [];
    sessions = old_session ∷ [];
    lifetime_stats = (1, no_stats) ∷ [];
    hands = [];
    hand_seats = [];
    next_user = 2;
    next_session = 2;
    next_hand = 1;
  };
  online = [];
  flags = [];
}

login : Answer
unfolding authenticate_password
login =
    authenticate_password hash_password verify_password "alice" "hunter2hunter" none 9 "k2" before

abbrev nobody : AuthSuccess
nobody = record {
  player = record { player_id = 0; username = ""; created_unix = 0; stats = no_stats };
  session_key = "";
  session_id = 0;
  revoked = 0;
}

granted : AuthSuccess
granted = success_of nobody login

after_login : Registry
after_login = registry_of before login

is_granted :
    authenticate_password hash_password verify_password "alice" "hunter2hunter" none 9 "k2" before
    ≡ accepted granted after_login
unfolding authenticate_password log_in check_password admit enter enter_with issue_session
    come_online install_online granted after_login login
is_granted = refl

authenticate_password_lem_example :
    ((b : AuthSuccess) × (later : Registry) × (authenticate_session granted.session_key after_login
        ≡ accepted b later)
      × (b.session_id ≡ granted.session_id)
      × (b.player.player_id ≡ granted.player.player_id))
    × ((k : String) (s : SessionRow)
        → find_session k before.db.sessions ≡ some s
        → s.user_id ≡ granted.player.player_id
        → authenticate_session k after_login ≡ refused session_revoked)
    × (IsSingle before.db.sessions → IsSingle after_login.db.sessions)
authenticate_password_lem_example =
    authenticate_password_lem hash_password verify_password "alice" "hunter2hunter" none 9 "k2"
      before granted after_login is_granted

abbrev rows : List HandSeatRecord
rows =
    record { seat = 1; player_id = some 1; chip_delta = 3; sat_out = false }
    ∷ record { seat = 0; player_id = none; chip_delta = 4294967293; sat_out = false }
    ∷ []

record_hand_lem_example :
    ((repeats_seat rows || names_stranger before.db.users rows ≡ true)
      × (record_hand 5 10 20 (1 ∷ []) rows before ≡ none))
    ⊎ ((repeats_seat rows ≡ false)
        × (names_stranger before.db.users rows ≡ false)
        × (id : ℕ) × (after : Registry) × (record_hand 5 10 20 (1 ∷ []) rows before
            ≡ some (id, after))
        × (fetch_hand id after
            ≡ some (record {
              hand = record { id = id; table_id = 5; started_at = 10; ended_at = 20; log = 1 ∷ [] };
              seats = by_seat rows;
            }))
        × ((j : ℕ) → id ≢ j → fetch_hand j after ≡ fetch_hand j before)
        × (count_hands after ≡ count_hands before + 1)
        × IsNumbered after.db)
record_hand_lem_example =
    record_hand_lem 5 10 20 (1 ∷ []) rows before (record { hands = tt; seats = tt })

abbrev hand : List EngineEvent
hand =
    hand_started 1 0 99
    ∷ action_taken 0 (raise 6) 9
    ∷ action_taken 1 call 12
    ∷ hand_ended 1 (record {
      hand_id = 1;
      board = [];
      seats =
          record { seat = 0; hole_cards = none; chip_delta = 6; sat_out = false }
          ∷ record { seat = 1; hole_cards = none; chip_delta = 4294967290; sat_out = false }
          ∷ [];
    })
    ∷ []

count_events-IsOrdered_example : All (IsOrdered 2) (count_events hand (new_stats 2)).seats
count_events-IsOrdered_example = count_events-IsOrdered 2 hand (omega arith)

let_in :
    perform_handshake hash_password verify_password
      (ClientMessage.authenticate protocol_version (by_password "alice" "hunter2hunter") none)
      ""
      9
      "k2"
      before
    ≡ entered granted after_login
unfolding perform_handshake authenticate authenticate_password log_in check_password admit enter
    enter_with issue_session come_online install_online granted after_login login
let_in = refl

perform_handshake-revoked_example :
    ((k : String) (s : SessionRow)
      → find_session k before.db.sessions ≡ some s
      → s.user_id ≡ granted.player.player_id
      → perform_handshake hash_password verify_password
          (ClientMessage.authenticate protocol_version (by_session k) none)
          ""
          10
          "k3"
          after_login
        ≡ turned_away (rejection RejectReason.session_revoked))
    × ((b : AuthSuccess) × (later : Registry) × (perform_handshake hash_password verify_password
            (ClientMessage.authenticate protocol_version (by_session granted.session_key) none)
            ""
            10
            "k3"
            after_login
          ≡ entered b later)
        × (b.player.player_id ≡ granted.player.player_id))
    × ((version : ℕ) (mode : AuthMode)
        → version ≢ protocol_version
        → perform_handshake hash_password verify_password
            (ClientMessage.authenticate version mode none)
            ""
            10
            "k3"
            after_login
          ≡ turned_away (rejection RejectReason.protocol_mismatch))
perform_handshake-revoked_example =
    perform_handshake-revoked hash_password verify_password "alice" "hunter2hunter" none none "" ""
      9 10 "k2" "k3" before after_login granted let_in
