-- ===== src/Server/Entrance.antt =====
-- crates/poker-server/src/registry.rs: the ways into the server: registration, a password, a session
-- key.
pub mod Sessions
pub mod Logins
use Prim.Native.String.{String}
use vibe_poker.Base.{
  ℕ, Bool, true, false, not, ◌||◌, List, [], ◌∷◌, Option, none, some, ◌==◌, if◌then◌else◌,
}
use vibe_poker.Net.Names.{codes, is_valid_username, is_valid_email, is_valid_password}
use vibe_poker.Net.Protocol.{LifetimeStats}
use vibe_poker.Server.Manager.{lookup}
use vibe_poker.Server.Registry.{
  invalid_username, invalid_email, invalid_password, username_in_use, email_in_use, bad_credentials,
  session_revoked, unknown_session, database, hash_error, UserRow, SessionRow, Registry, Answer,
  refused, find_user, find_session, is_found, enter, come_online, no_stats, add_user, new_user,
  has_username, has_email, has_id,
}

-- The password hash of the crate `argon2`, with a salt; `none` is an error.
module _ (hash_password : (password salt : String) → Option String)
    (verify_password : (password hash : String) → Option Bool) where
  -- The transaction of `register`.
  unfoldable pub enrol :
      (email username : String)
      → Option String
      → Option String
      → (now : ℕ) → String
      → Registry
      → Answer
  unfolding enter
  enrol email username none device_label now key r = refused hash_error
  enrol email username (some hash) device_label now key r =
      if is_found (find_user (has_username username) r.db.users)
      then refused username_in_use
      else if is_found (find_user (has_email email) r.db.users)
      then refused email_in_use
      else (let u = new_user email username now r.db.next_user in
          enter u (some no_stats) device_label now key (add_user u hash r.db) r)

  -- `Registry::register`
  unfoldable pub register :
      (email username password : String)
      → Option String
      → (salt : String) → (now : ℕ) → String
      → Registry
      → Answer
  unfolding enrol
  register email username password device_label salt now key r =
      if not (is_valid_email (codes email))
      then refused invalid_email
      else if not (is_valid_username (codes username))
      then refused invalid_username
      else if not (is_valid_password (codes password))
      then refused invalid_password
      else enrol email username (hash_password password salt) device_label now key r

  unfoldable pub admit :
      UserRow → Option Bool → Option String → (now : ℕ) → String → Registry → Answer
  unfolding enter
  admit u none device_label now key r = refused hash_error
  admit u (some false) device_label now key r = refused bad_credentials
  admit u (some true) device_label now key r =
      enter u (lookup u.id r.db.lifetime_stats) device_label now key r.db r

  -- A user with a password (`JOIN user_password`), and what comes of the password that is given.
  unfoldable pub check_password :
      UserRow → Option String → String → Option String → (now : ℕ) → String → Registry → Answer
  unfolding admit
  check_password u none password device_label now key r = refused bad_credentials
  check_password u (some hash) password device_label now key r =
      admit u (verify_password password hash) device_label now key r

  unfoldable pub log_in :
      Option UserRow → String → Option String → (now : ℕ) → String → Registry → Answer
  unfolding check_password
  log_in none password device_label now key r = refused bad_credentials
  log_in (some u) password device_label now key r =
      check_password u (lookup u.id r.db.passwords) password device_label now key r

  abbrev pub contains_at : List ℕ → Bool
  contains_at [] = false
  contains_at (c ∷ cs) = c == 64 || contains_at cs

  -- `Registry::authenticate_password`
  unfoldable pub authenticate_password :
      (identifier password : String) → Option String → (now : ℕ) → String → Registry → Answer
  unfolding log_in
  authenticate_password identifier password device_label now key r =
      let by =
        if contains_at (codes identifier) then has_email identifier else has_username identifier in
      log_in (find_user by r.db.users) password device_label now key r

unfoldable pub resume_with :
    SessionRow → UserRow → Option LifetimeStats → String → Registry → Answer
unfolding come_online
resume_with s u none key r = refused database
resume_with s u (some stats) key r = come_online u stats key s.id r.db r

unfoldable pub resume_as : SessionRow → Option UserRow → String → Registry → Answer
unfolding resume_with
resume_as s none key r = refused unknown_session
resume_as s (some u) key r =
    if is_found s.revoked_at
    then refused session_revoked
    else resume_with s u (lookup s.user_id r.db.lifetime_stats) key r

unfoldable pub resume : Option SessionRow → String → Registry → Answer
unfolding resume_as
resume none key r = refused unknown_session
resume (some s) key r = resume_as s (find_user (has_id s.user_id) r.db.users) key r

-- `Registry::authenticate_session`
unfoldable pub authenticate_session : String → Registry → Answer
unfolding resume
authenticate_session key r = resume (find_session key r.db.sessions) key r
