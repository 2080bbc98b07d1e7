-- ===== src/Server/Records.antt =====
-- crates/poker-server/src/registry.rs: what the server records of players and hands, and who goes
-- offline.
pub mod Hands
use vibe_poker.Base.{
  ℕ, ◌+◌, Bool, false, not, List, [], ◌∷◌, ◌++◌, map, length, Option, none, some, leb, ◌==◌, ◌||◌,
  if◌then◌else◌,
}
use vibe_poker.Net.Protocol.{LifetimeStats}
use vibe_poker.Server.Manager.{lookup, remove}
use vibe_poker.Server.Round.{HandSeatRecord}
use vibe_poker.Server.Registry.{Registry, OnlineEntry, HandRow, UserRow, is_found}

abbrev pub is_session : Option OnlineEntry → ℕ → Bool
is_session none id = false
is_session (some e) id = e.session_id == id

-- `Registry::logout`
unfoldable pub logout : (player_id session_id : ℕ) → Registry → Registry
logout player_id session_id r =
    if is_session (lookup player_id r.online) session_id
    then record r { online = remove player_id r.online }
    else r

-- `Registry::online_count`
abbrev pub online_count : Registry → ℕ
online_count r = length r.online

-- `UPDATE lifetime_stats SET .. WHERE user_id = ?`
abbrev pub set_stats : ℕ → LifetimeStats → List (ℕ × LifetimeStats) → List (ℕ × LifetimeStats)
set_stats id stats [] = []
set_stats id stats ((j, old) ∷ m) =
    if j == id then (j, stats) ∷ m else (j, old) ∷ set_stats id stats m

-- `Registry::update_stats`
unfoldable pub update_stats : (player_id : ℕ) → LifetimeStats → Registry → Registry
update_stats player_id stats r =
    if is_found (lookup player_id r.online)
    then record r {
      db = record (r.db) { lifetime_stats = set_stats player_id stats r.db.lifetime_stats };
    }
    else r

abbrev pub has_seat : ℕ → List HandSeatRecord → Bool
has_seat seat [] = false
has_seat seat (s ∷ ss) = s.seat == seat || has_seat seat ss

-- `PRIMARY KEY (hand_id, seat)`
abbrev pub repeats_seat : List HandSeatRecord → Bool
repeats_seat [] = false
repeats_seat (s ∷ ss) = has_seat s.seat ss || repeats_seat ss

abbrev pub is_user : ℕ → List UserRow → Bool
is_user id [] = false
is_user id (u ∷ us) = u.id == id || is_user id us

abbrev pub is_stranger : List UserRow → Option ℕ → Bool
is_stranger users none = false
is_stranger users (some id) = not (is_user id users)

-- `user_id INTEGER REFERENCES users(id)`, which the connections of db.rs enforce
-- (`foreign_keys(true)`).
abbrev pub names_stranger : List UserRow → List HandSeatRecord → Bool
names_stranger users [] = false
names_stranger users (s ∷ ss) = is_stranger users s.player_id || names_stranger users ss

abbrev pub rows_of : ℕ → List HandSeatRecord → List (ℕ × HandSeatRecord)
rows_of hand_id seats = map (λ s. (hand_id, s)) seats

-- `Registry::record_hand`, with the id of the hand; `none` is an error of the database.
unfoldable pub record_hand :
    (table_id started_at ended_at : ℕ)
    → (log : List ℕ) → List HandSeatRecord
    → Registry
    → Option (ℕ × Registry)
record_hand table_id started_at ended_at log seats r =
    if repeats_seat seats || names_stranger r.db.users seats
    then none
    else some (
      r.db.next_hand,
      record r {
        db = record (r.db) {
          hands =
              r.db.hands
              ++ (record {
                id = r.db.next_hand;
                table_id = table_id;
                started_at = started_at;
                ended_at = ended_at;
                log = log;
              }
                  ∷ []);
          hand_seats = r.db.hand_seats ++ rows_of r.db.next_hand seats;
          next_hand = r.db.next_hand + 1;
        };
      },
    )

pub record HandRecord : Type 0 where
  pub hand : HandRow
  pub seats : List HandSeatRecord

abbrev pub find_hand : ℕ → List HandRow → Option HandRow
find_hand id [] = none
find_hand id (h ∷ hs) = if h.id == id then some h else find_hand id hs

-- `SELECT .. FROM hand_seats WHERE hand_id = ?`
abbrev pub seats_of_hand : ℕ → List (ℕ × HandSeatRecord) → List HandSeatRecord
seats_of_hand id [] = []
seats_of_hand id ((j, s) ∷ rows) =
    let rest = seats_of_hand id rows in if j == id then s ∷ rest else rest

-- `ORDER BY seat`
abbrev pub insert_seat : HandSeatRecord → List HandSeatRecord → List HandSeatRecord
insert_seat x [] = x ∷ []
insert_seat x (y ∷ ys) = if leb x.seat y.seat then x ∷ y ∷ ys else y ∷ insert_seat x ys

abbrev pub by_seat : List HandSeatRecord → List HandSeatRecord
by_seat [] = []
by_seat (x ∷ xs) = insert_seat x (by_seat xs)

abbrev pub hand_with : List HandSeatRecord → Option HandRow → Option HandRecord
hand_with seats none = none
hand_with seats (some h) = some (record { hand = h; seats = seats })

-- `Registry::fetch_hand`
unfoldable pub fetch_hand : ℕ → Registry → Option HandRecord
fetch_hand id r = hand_with (by_seat (seats_of_hand id r.db.hand_seats)) (find_hand id r.db.hands)

-- `Registry::count_hands`
abbrev pub count_hands : Registry → ℕ
count_hands r = length r.db.hands
