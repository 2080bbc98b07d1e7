-- ===== src/Server/Registry.antt =====
-- crates/poker-server/src/registry.rs: users, their passwords and sessions in the database, and who is
-- online. The database's tables are lists of rows; a transaction that fails leaves them as they were.
-- Random salts and keys, the time and the password hash are arguments.
use Prim.Native.String.{String}
use text.Mathlib.Text.{◌==◌ as ◌==ₛ◌}
use vibe_poker.Base.{
  ℕ, ◌+◌, Bool, true, false, not, ◌&&◌, List, [], ◌∷◌, ◌++◌, map, length, update, Option, none,
  some, ◌==◌, if◌then◌else◌,
}
use vibe_poker.Net.Protocol.{LifetimeStats}
use vibe_poker.Server.Manager.{lookup, insert}
use vibe_poker.Server.Round.{HandSeatRecord}

pub data RegistryError : Type 0 where
  invalid_username invalid_email invalid_password username_in_use email_in_use bad_credentials
        session_revoked unknown_session database hash_error :
      RegistryError

pub record UserRow : Type 0 where
  pub id : ℕ
  pub email : String
  pub username : String
  pub created_at : ℕ

pub record SessionRow : Type 0 where
  pub id : ℕ
  pub user_id : ℕ
  pub key : String
  pub device_label : Option String
  pub created_at : ℕ
  pub revoked_at : Option ℕ

pub record HandRow : Type 0 where
  pub id : ℕ
  pub table_id : ℕ
  pub started_at : ℕ
  pub ended_at : ℕ
  pub log : List ℕ

-- The `next_` fields are the ids that the database gives out next (`AUTOINCREMENT`).
pub record Database : Type 0 where
  pub users : List UserRow
  pub passwords : List (ℕ × String)
  pub sessions : List SessionRow
  pub lifetime_stats : List (ℕ × LifetimeStats)
  pub hands : List HandRow
  pub hand_seats : List (ℕ × HandSeatRecord)
  pub next_user : ℕ
  pub next_session : ℕ
  pub next_hand : ℕ

pub record PlayerRecord : Type 0 where
  pub player_id : ℕ
  pub username : String
  pub created_unix : ℕ
  pub stats : LifetimeStats

-- `revoked` names a shared flag.
pub record AuthSuccess : Type 0 where
  pub player : PlayerRecord
  pub session_key : String
  pub session_id : ℕ
  pub revoked : ℕ

pub record OnlineEntry : Type 0 where
  pub session_id : ℕ
  pub revoked : ℕ

pub record Registry : Type 0 where
  pub db : Database
  pub online : List (ℕ × OnlineEntry)
  pub flags : List Bool

-- On an error the registry is as it was.
pub data Answer : Type 0 where
  accepted : AuthSuccess → Registry → Answer
  refused : RegistryError → Answer

-- `SELECT .. FROM users WHERE ..`, of which there is one row at most.
abbrev pub find_user : (UserRow → Bool) → List UserRow → Option UserRow
find_user p [] = none
find_user p (u ∷ us) = if p u then some u else find_user p us

abbrev pub find_session : String → List SessionRow → Option SessionRow
find_session key [] = none
find_session key (s ∷ ss) = if s.key ==ₛ key then some s else find_session key ss

abbrev pub is_found {ℓ} : {A : Type ℓ} → Option A → Bool
is_found none = false
is_found (some a) = true

abbrev pub is_live : ℕ → SessionRow → Bool
is_live user_id s = s.user_id == user_id && not (is_found s.revoked_at)

-- `UPDATE sessions SET revoked_at = ? WHERE user_id = ? AND revoked_at IS NULL`
abbrev pub revoke : (now user_id : ℕ) → SessionRow → SessionRow
revoke now user_id s = if is_live user_id s then record s { revoked_at = some now } else s

-- The row of a new session.
abbrev pub new_session : ℕ → Option String → ℕ → String → ℕ → SessionRow
new_session user_id device_label now key id = record {
  id = id;
  user_id = user_id;
  key = key;
  device_label = device_label;
  created_at = now;
  revoked_at = none;
}

-- `issue_session_in_tx`: `none` if the key is not unique.
unfoldable pub issue_session :
    (user_id : ℕ) → Option String → (now : ℕ) → String → Database → Option Database
issue_session user_id device_label now key db =
    if is_found (find_session key db.sessions)
    then none
    else some (record db {
      sessions =
          map (revoke now user_id) db.sessions
          ++ (new_session user_id device_label now key db.next_session ∷ []);
      next_session = db.next_session + 1;
    })

abbrev pub raise_flag : Option OnlineEntry → List Bool → List Bool
raise_flag none flags = flags
raise_flag (some e) flags = update (λ _. true) flags e.revoked

-- `install_online`, which returns the name of the new flag.
unfoldable pub install_online : (player_id session_id : ℕ) → Registry → Registry × ℕ
install_online player_id session_id r =
    let flag = length r.flags in
    (
      record r {
        online = insert player_id (record { session_id = session_id; revoked = flag }) r.online;
        flags = raise_flag (lookup player_id r.online) (r.flags ++ (false ∷ []));
      },
      flag,
    )

-- The end of every way in, after the transaction: the player is online.
unfoldable pub come_online :
    UserRow → LifetimeStats → String → (session_id : ℕ) → Database → Registry → Answer
unfolding install_online
come_online u stats key session_id db r =
    let (installed, flag) = install_online u.id session_id (record r { db = db }) in
    accepted
      (record {
        player = record {
          player_id = u.id;
          username = u.username;
          created_unix = u.created_at;
          stats = stats;
        };
        session_key = key;
        session_id = session_id;
        revoked = flag;
      })
      installed

abbrev pub no_stats : LifetimeStats
no_stats = record {
  hands = 0;
  voluntary_pf = 0;
  raised_pf = 0;
  aggressive_actions = 0;
  passive_actions = 0;
  showdowns = 0;
  chip_delta = 0;
}

-- The rows of a new user.
abbrev pub add_user : UserRow → String → Database → Database
add_user u hash db = record db {
  users = db.users ++ (u ∷ []);
  passwords = db.passwords ++ ((u.id, hash) ∷ []);
  lifetime_stats = db.lifetime_stats ++ ((u.id, no_stats) ∷ []);
  next_user = db.next_user + 1;
}

-- The end of a transaction that issues a session to a user with these statistics.
unfoldable pub enter_with :
    UserRow → String → ℕ → Option LifetimeStats → Option Database → Registry → Answer
unfolding come_online
enter_with u key session_id stats none r = refused database
enter_with u key session_id none (some db) r = refused database
enter_with u key session_id (some stats) (some db) r = come_online u stats key session_id db r

unfoldable pub enter :
    UserRow
    → Option LifetimeStats
    → Option String
    → (now : ℕ) → String
    → Database
    → Registry
    → Answer
unfolding enter_with issue_session
enter u stats device_label now key db r =
    enter_with u key db.next_session stats (issue_session u.id device_label now key db) r

abbrev pub new_user : String → String → ℕ → ℕ → UserRow
new_user email username now id = record {
  id = id;
  email = email;
  username = username;
  created_at = now;
}

abbrev pub has_username : String → UserRow → Bool
has_username username u = u.username ==ₛ username

abbrev pub has_email : String → UserRow → Bool
has_email email u = u.email ==ₛ email

abbrev pub has_id : ℕ → UserRow → Bool
has_id id u = u.id == id
