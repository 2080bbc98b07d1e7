-- ===== src/Server/Entrance/Logins.antt =====
-- crates/poker-server/src/registry.rs: what a login grants, and whose sessions it ends.
use Prim.Native.String.{String}
use mathlib.Core.Path.{subst}
use vibe_poker.Base.{
  ℕ, Bool, true, false, List, [], ◌∷◌, Option, none, some, ◌==◌, if◌then◌else◌, ◌≡◌, ◌∙◌, refl, sym,
  ap, arith, Bool-cases, inl, inr,
}
use vibe_poker.Net.Protocol.{LifetimeStats}
use vibe_poker.Net.Names.{codes}
use vibe_poker.Server.Manager.{lookup}
use vibe_poker.Server.Registry.{
  session_revoked, bad_credentials, hash_error, database, UserRow, SessionRow, Database, Registry,
  AuthSuccess, accepted, refused, find_user, find_session, is_found, revoke, new_session, enter,
  come_online, install_online, has_id, has_email, has_username,
}
use vibe_poker.Server.Entrance.{
  admit, check_password, log_in, contains_at, authenticate_password, resume_with, resume_as, resume,
  authenticate_session,
}
use vibe_poker.Server.Entrance.Sessions.{
  IsSingle, issued, IsEntered, enter-IsEntered, refused-accepted, enter-taken, enter-lost,
  revoke-same, revoke-dead, find_session-revoked, find_session-new, issued-IsSingle,
}

find_user-id :
    (p : UserRow → Bool) (us : List UserRow) (u : UserRow)
    → find_user p us ≡ some u
    → (v : UserRow) × (find_user (has_id u.id) us ≡ some v) × (v.id ≡ u.id)
find_user-id p [] u h = absurd (ground arith)
find_user-id p (x ∷ us) u h = elim (Bool-cases (x.id == u.id)) [
  | inl e ↦ (x, rw e refl, ground arith)
  | inr e ↦ elim (Bool-cases (p x)) [
    | inl q ↦
        (let here : find_user p (x ∷ us) ≡ some x = rw q refl in
          let found = sym here ∙ h in
          let same : x ≡ u = ground arith in
          let ids = ap (λ (y : UserRow). y.id) same in absurd (ground arith))
    | inr q ↦
        (let there : find_user p (x ∷ us) ≡ find_user p us = rw q refl in
          let (v, at, id) = find_user-id p us u (sym there ∙ h) in (v, rw e at, id))
  ]
]

come_online-accepted :
    (u : UserRow) (stats : LifetimeStats) (key : String) (id : ℕ) (db : Database) (r : Registry)
    → (b : AuthSuccess) × (after : Registry) × (come_online u stats key id db r ≡ accepted b after)
      × (b.session_id ≡ id)
      × (b.player.player_id ≡ u.id)
unfolding come_online install_online
come_online-accepted u stats key id db r = (_, _, refl, refl, refl)

-- A live session of a user with statistics is resumed.
resume-live :
    (s : SessionRow) (u : UserRow) (stats : LifetimeStats) (key : String) (r : Registry)
    → find_session key r.db.sessions ≡ some s
    → find_user (has_id s.user_id) r.db.users ≡ some u
    → lookup s.user_id r.db.lifetime_stats ≡ some stats
    → s.revoked_at ≡ none
    → (b : AuthSuccess) × (after : Registry) × (authenticate_session key r ≡ accepted b after)
      × (b.session_id ≡ s.id)
      × (b.player.player_id ≡ u.id)
unfolding authenticate_session resume resume_as resume_with
resume-live s u stats key r f g h l =
    let (b, after, ok, sid, pid) = come_online-accepted u stats key s.id r.db r in
    (b, after, rw (f, g, l, h) ok, sid, pid)

resume-revoked :
    (s : SessionRow) (u : UserRow) (key : String) (r : Registry)
    → find_session key r.db.sessions ≡ some s
    → find_user (has_id s.user_id) r.db.users ≡ some u
    → is_found s.revoked_at ≡ true
    → authenticate_session key r ≡ refused session_revoked
unfolding authenticate_session resume resume_as
resume-revoked s u key r f g l = rw (f, g, l) refl

-- What an entry on a user of the database grants and ends.
entered_lem :
    (by : UserRow → Bool) (u : UserRow) (stats : LifetimeStats) (d : Option String) (now : ℕ)
    (key : String) (r : Registry) (a : AuthSuccess) (after : Registry)
    → find_user by r.db.users ≡ some u
    → lookup u.id r.db.lifetime_stats ≡ some stats
    → IsEntered u d now key r.db a after
    → ((b : AuthSuccess) × (later : Registry) × (authenticate_session a.session_key after
          ≡ accepted b later)
        × (b.session_id ≡ a.session_id)
        × (b.player.player_id ≡ a.player.player_id))
      × ((k : String) (s : SessionRow)
          → find_session k r.db.sessions ≡ some s
          → s.user_id ≡ a.player.player_id
          → authenticate_session k after ≡ refused session_revoked)
      × (IsSingle r.db.sessions → IsSingle after.db.sessions)
entered_lem by u stats d now key r a after f l x =
    let (v, at, same_id) = find_user-id by r.db.users u f in
    let new = new_session u.id d now key r.db.next_session in
    let there =
      ap (find_session a.session_key) x.sessions
      ∙ ap (λ k. find_session k (issued u d now key r.db)) x.with_key
      ∙ find_session-new now u.id key r.db.sessions new x.fresh refl in
    let user_there = ap (find_user (has_id u.id)) x.users ∙ at in
    let (b, later, ok, sid, pid) =
      resume-live new v stats a.session_key after there user_there (ap (lookup u.id) x.stats ∙ l)
        refl in
    (
      (b, later, ok, sid ∙ sym x.with_id, pid ∙ same_id ∙ sym x.player),
      (λ k s g own.
          let mine = own ∙ x.player in
          let dead = revoke now u.id s in
          let owner = (revoke-same now u.id s).2 ∙ mine in
          resume-revoked dead v k after
            (ap (find_session k) x.sessions
              ∙ find_session-revoked now u.id k r.db.sessions (new ∷ []) s g)
            (ap (λ i. find_user (has_id i) after.db.users) owner ∙ user_there)
            (revoke-dead now u.id s mine)),
      λ h. subst IsSingle (sym x.sessions) (issued-IsSingle u d now key r.db h),
    )

enter-none :
    (u : UserRow) (d : Option String) (now : ℕ) (key : String) (db : Database) (r : Registry)
    (a : AuthSuccess) (after : Registry)
    → enter u none d now key db r ≡ accepted a after
    → ⊥
enter-none u d now key db r a after h =
    elim (Bool-cases (is_found (find_session key db.sessions))) [
      | inl e ↦ refused-accepted database a after _ (enter-taken u none d now key db r e) h
      | inr e ↦ refused-accepted database a after _ (enter-lost u d now key db r e) h
    ]

module _ (hash_password : (password salt : String) → Option String)
    (verify_password : (password hash : String) → Option Bool) where
  -- What an accepted password login found.
  pub record IsLogin (o : Option UserRow) (device_label : Option String) (now : ℕ) (key : String)
      (r : Registry) (a : AuthSuccess) (after : Registry) : Type 0 where
    pub user : UserRow
    pub found : o ≡ some user
    pub stats : LifetimeStats
    pub has_stats : lookup user.id r.db.lifetime_stats ≡ some stats
    pub did_enter : enter user (some stats) device_label now key r.db r ≡ accepted a after

  enter-IsLogin :
      (u : UserRow) (o : Option LifetimeStats) (d : Option String) (now : ℕ) (key : String)
      (r : Registry) (a : AuthSuccess) (after : Registry)
      → lookup u.id r.db.lifetime_stats ≡ o
      → enter u o d now key r.db r ≡ accepted a after
      → IsLogin (some u) d now key r a after
  enter-IsLogin u none d now key r a after e h = absurd (enter-none u d now key r.db r a after h)
  enter-IsLogin u (some stats) d now key r a after e h = record {
    user = u;
    found = refl;
    stats = stats;
    has_stats = e;
    did_enter = h;
  }

  admit-IsLogin :
      (u : UserRow) (v : Option Bool) (d : Option String) (now : ℕ) (key : String) (r : Registry)
      (a : AuthSuccess) (after : Registry)
      → admit hash_password verify_password u v d now key r ≡ accepted a after
      → IsLogin (some u) d now key r a after
  unfolding admit
  admit-IsLogin u none d now key r a after h = absurd (refused-accepted hash_error a after _ refl h)
  admit-IsLogin u (some false) d now key r a after h =
      absurd (refused-accepted bad_credentials a after _ refl h)
  admit-IsLogin u (some true) d now key r a after h =
      enter-IsLogin u (lookup u.id r.db.lifetime_stats) d now key r a after refl h

  check-IsLogin :
      (u : UserRow) (o : Option String) (password : String) (d : Option String) (now : ℕ)
      (key : String) (r : Registry) (a : AuthSuccess) (after : Registry)
      → check_password hash_password verify_password u o password d now key r ≡ accepted a after
      → IsLogin (some u) d now key r a after
  unfolding check_password
  check-IsLogin u none pw d now key r a after h =
      absurd (refused-accepted bad_credentials a after _ refl h)
  check-IsLogin u (some hash) pw d now key r a after h =
      admit-IsLogin u (verify_password pw hash) d now key r a after h

  log_in-IsLogin :
      (o : Option UserRow) (password : String) (d : Option String) (now : ℕ) (key : String)
      (r : Registry) (a : AuthSuccess) (after : Registry)
      → log_in hash_password verify_password o password d now key r ≡ accepted a after
      → IsLogin o d now key r a after
  unfolding log_in
  log_in-IsLogin none pw d now key r a after h =
      absurd (refused-accepted bad_credentials a after _ refl h)
  log_in-IsLogin (some u) pw d now key r a after h =
      check-IsLogin u (lookup u.id r.db.passwords) pw d now key r a after h

  -- An accepted login gives a session key that resumes the session it names, as the same player. The
  -- keys of the user's earlier sessions are refused as revoked from then on; and if no user had two
  -- live sessions then none has.
  pub authenticate_password_lem :
      (identifier password : String) (d : Option String) (now : ℕ) (key : String) (r : Registry)
      (a : AuthSuccess) (after : Registry)
      → authenticate_password hash_password verify_password identifier password d now key r
        ≡ accepted a after
      → ((b : AuthSuccess) × (later : Registry) × (authenticate_session a.session_key after
            ≡ accepted b later)
          × (b.session_id ≡ a.session_id)
          × (b.player.player_id ≡ a.player.player_id))
        × ((k : String) (s : SessionRow)
            → find_session k r.db.sessions ≡ some s
            → s.user_id ≡ a.player.player_id
            → authenticate_session k after ≡ refused session_revoked)
        × (IsSingle r.db.sessions → IsSingle after.db.sessions)
  unfolding authenticate_password
  authenticate_password_lem identifier pw d now key r a after h =
      let by =
        if contains_at hash_password verify_password (codes identifier)
        then has_email identifier
        else has_username identifier in
      let login = log_in-IsLogin (find_user by r.db.users) pw d now key r a after h in
      entered_lem by login.user login.stats d now key r a after login.found login.has_stats
        (enter-IsEntered login.user (some login.stats) d now key r.db r a after login.did_enter)
