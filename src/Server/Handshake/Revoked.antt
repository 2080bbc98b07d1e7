-- ===== src/Server/Handshake/Revoked.antt =====
-- crates/poker-server/src/session.rs and registry.rs: handshakes with a revoked key.
use Prim.Native.String.{String}
use vibe_poker.Base.{ℕ, Bool, false, Option, some, ◌==◌, ◌≢◌, ◌≡◌, refl, ap, arith}
use vibe_poker.Net.Protocol.{AuthMode, by_password, by_session, ClientMessage, protocol_version}
use vibe_poker.Net.Names.{RejectReason}
use vibe_poker.Server.Registry.{
  Registry, Answer, AuthSuccess, SessionRow, accepted, refused, find_session,
}
use vibe_poker.Server.Entrance.{authenticate_password}
use vibe_poker.Server.Entrance.Logins.{authenticate_password_lem}
use vibe_poker.Server.Handshake.{
  Outcome, entered, turned_away, outcome_of, rejection, authenticate, perform_handshake,
}

abbrev answer_of : Answer → Outcome → Answer
answer_of d (entered a r) = accepted a r
answer_of d _ = d

entered-accepted :
    (x : Answer) (a : AuthSuccess) (r : Registry) → outcome_of x ≡ entered a r → x ≡ accepted a r
entered-accepted (accepted b s) a r h = ap (answer_of (accepted b s)) h
entered-accepted (refused e) a r h = absurd (ground arith)

module _ (hash_password : (password salt : String) → Option String)
    (verify_password : (password hash : String) → Option Bool) where
  -- After a handshake with a password has let a client in, a handshake with the key of an earlier
  -- session of that user is answered with the rejection `session revoked`, and one with the new key lets
  -- the client in as the same player; and with another protocol version every handshake that asks to
  -- authenticate is answered with the rejection that says so.
  pub perform_handshake-revoked :
      (identifier password : String) (d e : Option String) (salt salt1 : String) (now now1 : ℕ)
      (key key1 : String) (r after : Registry) (a : AuthSuccess)
      → perform_handshake hash_password verify_password
          (ClientMessage.authenticate protocol_version (by_password identifier password) d)
          salt
          now
          key
          r
        ≡ entered a after
      → ((k : String) (s : SessionRow)
          → find_session k r.db.sessions ≡ some s
          → s.user_id ≡ a.player.player_id
          → perform_handshake hash_password verify_password
              (ClientMessage.authenticate protocol_version (by_session k) e)
              salt1
              now1
              key1
              after
            ≡ turned_away (rejection RejectReason.session_revoked))
        × ((b : AuthSuccess) × (later : Registry) × (perform_handshake hash_password verify_password
                (ClientMessage.authenticate protocol_version (by_session a.session_key) e)
                salt1
                now1
                key1
                after
              ≡ entered b later)
            × (b.player.player_id ≡ a.player.player_id))
        × ((version : ℕ) (mode : AuthMode)
            → version ≢ protocol_version
            → perform_handshake hash_password verify_password
                (ClientMessage.authenticate version mode e)
                salt1
                now1
                key1
                after
              ≡ turned_away (rejection RejectReason.protocol_mismatch))
  unfolding perform_handshake authenticate
  perform_handshake-revoked identifier password d e salt salt1 now now1 key key1 r after a h =
      let login =
        authenticate_password hash_password verify_password identifier password d now key r in
      let ok = entered-accepted login a after h in
      let given =
        authenticate_password_lem hash_password verify_password identifier password d now key r a
          after ok in
      let (b, later, again, sid, pid) = given.0 in
      (
        (λ k s f own. ap outcome_of (given.1 k s f own)),
        (b, later, ap outcome_of again, pid),
        (λ version mode apart.
            let other : (version == protocol_version) ≡ false = ground arith in rw other refl),
      )
