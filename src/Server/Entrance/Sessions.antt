-- ===== src/Server/Entrance/Sessions.antt =====
-- crates/poker-server/src/registry.rs: a new session revokes the user's others.
use Prim.Native.String.{String}
use text.Mathlib.Text.{◌==◌ as ◌==ₛ◌}
use text.Mathlib.TextPositions.{eq_refl}
use vibe_poker.Base.{
  ℕ, ◌+◌, ◌≤◌, Bool, true, false, List, [], ◌∷◌, ◌++◌, map, Option, none, some, ◌==◌, if◌then◌else◌,
  count_if, ◌≡◌, ◌∙◌, refl, sym, ap, arith, Bool-cases, inl, inr,
}
use vibe_poker.Net.Protocol.{LifetimeStats}
use vibe_poker.Server.Registry.{
  RegistryError, database, UserRow, SessionRow, Database, Registry, Answer, AuthSuccess, accepted,
  refused, find_session, is_found, is_live, revoke, new_session, issue_session, enter_with, enter,
  come_online, install_online,
}

-- No user has two live sessions.
abbrev pub IsSingle : List SessionRow → Type 0
IsSingle ss = (u : ℕ) → count_if (is_live u) ss ≤ 1

abbrev pub success_of : AuthSuccess → Answer → AuthSuccess
success_of d (accepted a r) = a
success_of d (refused e) = d

abbrev pub registry_of : Registry → Answer → Registry
registry_of d (accepted a r) = r
registry_of d (refused e) = d

abbrev pub issued : UserRow → Option String → ℕ → String → Database → List SessionRow
issued u device_label now key db =
    map (revoke now u.id) db.sessions
    ++ (new_session u.id device_label now key db.next_session ∷ [])

-- What an accepted entry did.
pub record IsEntered (u : UserRow) (device_label : Option String) (now : ℕ) (key : String)
    (db : Database) (a : AuthSuccess) (after : Registry) : Type 0 where
  pub player : a.player.player_id ≡ u.id
  pub with_key : a.session_key ≡ key
  pub with_id : a.session_id ≡ db.next_session
  pub sessions : after.db.sessions ≡ issued u device_label now key db
  pub users : after.db.users ≡ db.users
  pub stats : after.db.lifetime_stats ≡ db.lifetime_stats
  pub fresh : is_found (find_session key db.sessions) ≡ false

pub enter-taken :
    (u : UserRow) (stats : Option LifetimeStats) (d : Option String) (now : ℕ) (key : String)
    (db : Database) (r : Registry)
    → is_found (find_session key db.sessions) ≡ true
    → enter u stats d now key db r ≡ refused database
unfolding enter enter_with issue_session
enter-taken u none d now key db r e = rw e refl
enter-taken u (some stats) d now key db r e = rw e refl

pub enter-lost :
    (u : UserRow) (d : Option String) (now : ℕ) (key : String) (db : Database) (r : Registry)
    → is_found (find_session key db.sessions) ≡ false
    → enter u none d now key db r ≡ refused database
unfolding enter enter_with issue_session
enter-lost u d now key db r e = rw e refl

entered : UserRow → Option String → ℕ → String → Database → Database
entered u d now key db = record db {
  sessions = issued u d now key db;
  next_session = db.next_session + 1;
}

enter-free :
    (u : UserRow) (stats : LifetimeStats) (d : Option String) (now : ℕ) (key : String)
    (db : Database) (r : Registry)
    → is_found (find_session key db.sessions) ≡ false
    → enter u (some stats) d now key db r
      ≡ come_online u stats key db.next_session (entered u d now key db) r
unfolding enter enter_with issue_session entered
enter-free u stats d now key db r e = rw e refl

come_online-IsEntered :
    (u : UserRow) (stats : LifetimeStats) (d : Option String) (now : ℕ) (key : String)
    (db : Database) (r : Registry) (a : AuthSuccess) (after : Registry)
    → is_found (find_session key db.sessions) ≡ false
    → come_online u stats key db.next_session (entered u d now key db) r ≡ accepted a after
    → IsEntered u d now key db a after
unfolding come_online install_online entered
come_online-IsEntered u stats d now key db r a after e h = record {
  player = ap (λ x. (success_of a x).player.player_id) (sym h);
  with_key = ap (λ x. (success_of a x).session_key) (sym h);
  with_id = ap (λ x. (success_of a x).session_id) (sym h);
  sessions = ap (λ x. (registry_of after x).db.sessions) (sym h);
  users = ap (λ x. (registry_of after x).db.users) (sym h);
  stats = ap (λ x. (registry_of after x).db.lifetime_stats) (sym h);
  fresh = e;
}

pub refused-accepted :
    (e : RegistryError) (a : AuthSuccess) (r : Registry) (x : Answer)
    → x ≡ refused e
    → x ≡ accepted a r
    → ⊥
refused-accepted e a r x h k = let clash = sym h ∙ k in ground arith

pub enter-IsEntered :
    (u : UserRow) (stats : Option LifetimeStats) (d : Option String) (now : ℕ) (key : String)
    (db : Database) (r : Registry) (a : AuthSuccess) (after : Registry)
    → enter u stats d now key db r ≡ accepted a after
    → IsEntered u d now key db a after
enter-IsEntered u stats d now key db r a after h =
    elim (Bool-cases (is_found (find_session key db.sessions))) [
      | inl e ↦
          absurd (refused-accepted database a after _ (enter-taken u stats d now key db r e) h)
      | inr e ↦ enter_free-IsEntered stats e h
    ]
  where
    enter_free-IsEntered :
        (o : Option LifetimeStats)
        → is_found (find_session key db.sessions) ≡ false
        → enter u o d now key db r ≡ accepted a after
        → IsEntered u d now key db a after
    enter_free-IsEntered none e k =
        absurd (refused-accepted database a after _ (enter-lost u d now key db r e) k)
    enter_free-IsEntered (some s) e k =
        come_online-IsEntered u s d now key db r a after e
          (sym (enter-free u s d now key db r e) ∙ k)

pub revoke-same :
    (now u : ℕ) (s : SessionRow)
    → ((revoke now u s).key ≡ s.key)
      × ((revoke now u s).id ≡ s.id)
      × ((revoke now u s).user_id ≡ s.user_id)
revoke-same now u s = elim (Bool-cases (is_live u s)) [
  | inl e ↦ rw e (refl, refl, refl)
  | inr e ↦ rw e (refl, refl, refl)
]

pub revoke-dead :
    (now u : ℕ) (s : SessionRow) → s.user_id ≡ u → is_found (revoke now u s).revoked_at ≡ true
revoke-dead now u s h = elim (Bool-cases (is_live u s)) [
  | inl e ↦ rw e refl
  | inr e ↦ rw e (ground arith)
]

pub find_session-revoked :
    (now u : ℕ) (k : String) (ss tail : List SessionRow) (s : SessionRow)
    → find_session k ss ≡ some s
    → find_session k (map (revoke now u) ss ++ tail) ≡ some (revoke now u s)
find_session-revoked now u k [] tail s h = absurd (ground arith)
find_session-revoked now u k (x ∷ ss) tail s h = elim (Bool-cases (x.key ==ₛ k)) [
  | inl e ↦
      (let here : find_session k (x ∷ ss) ≡ some x = rw e refl in
        let found = sym here ∙ h in
        let same : x ≡ s = ground arith in
        rw ((revoke-same now u x).0, e) (ap (λ y. some (revoke now u y)) same))
  | inr e ↦
      (let there : find_session k (x ∷ ss) ≡ find_session k ss = rw e refl in
        rw ((revoke-same now u x).0, e) (find_session-revoked now u k ss tail s (sym there ∙ h)))
]

pub find_session-new :
    (now u : ℕ) (k : String) (ss : List SessionRow) (s : SessionRow)
    → is_found (find_session k ss) ≡ false
    → s.key ≡ k
    → find_session k (map (revoke now u) ss ++ (s ∷ [])) ≡ some s
find_session-new now u k [] s h e = rw (e, eq_refl k) refl
find_session-new now u k (x ∷ ss) s h e = elim (Bool-cases (x.key ==ₛ k)) [
  | inl q ↦
      (let here : find_session k (x ∷ ss) ≡ some x = rw q refl in
        let clash = ap is_found (sym here) ∙ h in absurd (ground arith))
  | inr q ↦
      (let there : find_session k (x ∷ ss) ≡ find_session k ss = rw q refl in
        rw ((revoke-same now u x).0, q)
          (find_session-new now u k ss s (ap is_found (sym there) ∙ h) e))
]

live-revoked :
    (now u v : ℕ) (s : SessionRow)
    → (if is_live v (revoke now u s) then 1 else 0) ≤ (if is_live v s then 1 else 0)
live-revoked now u v s = elim (Bool-cases (is_live u s)) [
  | inl e ↦ rw e (ground arith)
  | inr e ↦ rw e (omega arith)
]

live-gone : (now u : ℕ) (s : SessionRow) → is_live u (revoke now u s) ≡ false
live-gone now u s = elim (Bool-cases (is_live u s)) [ inl e ↦ rw e (ground arith) | inr e ↦ rw e e ]

count_if-append :
    (p : SessionRow → Bool) (xs ys : List SessionRow)
    → count_if p (xs ++ ys) ≡ count_if p xs + count_if p ys
count_if-append p [] ys = omega arith
count_if-append p (x ∷ xs) ys = omega (arith, count_if-append p xs ys)

count_if-revoke :
    (now u v : ℕ) (ss : List SessionRow)
    → count_if (is_live v) (map (revoke now u) ss) ≤ count_if (is_live v) ss
count_if-revoke now u v [] = omega arith
count_if-revoke now u v (s ∷ ss) = omega (arith, live-revoked now u v s, count_if-revoke now u v ss)

count_if-gone :
    (now u : ℕ) (ss : List SessionRow) → count_if (is_live u) (map (revoke now u) ss) ≡ 0
count_if-gone now u [] = refl
count_if-gone now u (s ∷ ss) = rw (live-gone now u s) (omega (arith, count_if-gone now u ss))

pub issued-IsSingle :
    (u : UserRow) (d : Option String) (now : ℕ) (key : String) (db : Database)
    → IsSingle db.sessions
    → IsSingle (issued u d now key db)
issued-IsSingle u d now key db h v =
    let total =
      count_if-append (is_live v) (map (revoke now u.id) db.sessions)
        (new_session u.id d now key db.next_session ∷ []) in
    elim (Bool-cases (u.id == v)) [
      | inl e ↦
          (let same : u.id ≡ v = ground arith in
            let none_left =
              ap (λ x. count_if (is_live x) (map (revoke now u.id) db.sessions)) (sym same)
              ∙ count_if-gone now u.id db.sessions in
            rw (total, e) (omega (arith, none_left)))
      | inr e ↦ rw (total, e) (omega (arith, count_if-revoke now u.id v db.sessions, h v))
    ]
