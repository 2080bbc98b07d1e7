-- ===== src/Server/Records/Hands.antt =====
-- crates/poker-server/src/registry.rs: a recorded hand is fetched again.
use mathlib.Core.List.{append-nil}
use vibe_poker.Base.{
  ℕ, ◌+◌, ◌<◌, true, false, List, [], ◌∷◌, ◌++◌, length-append, none, some, ◌==◌, ◌||◌, ◌≢◌, ◌⊎◌,
  if◌then◌else◌, ◌≡◌, ◌∙◌, refl, ap, arith, Bool-cases, inl, inr, All,
}
use vibe_poker.Server.Round.{HandSeatRecord}
use vibe_poker.Server.Registry.{Registry, Database, HandRow}
use vibe_poker.Server.Records.{
  repeats_seat, names_stranger, rows_of, record_hand, find_hand, seats_of_hand, by_seat, fetch_hand,
  count_hands,
}

-- The ids that were given out are below the next one.
pub record IsNumbered (db : Database) : Type 0 where
  pub hands : All (λ (h : HandRow). h.id < db.next_hand) db.hands
  pub seats : All (λ (row : ℕ × HandSeatRecord). row.0 < db.next_hand) db.hand_seats

find_hand-new :
    (n : ℕ) (hs : List HandRow) (h : HandRow)
    → All (λ (x : HandRow). x.id < n) hs
    → h.id ≡ n
    → find_hand n (hs ++ (h ∷ [])) ≡ some h
find_hand-new n [] h a e = ground arith
find_hand-new n (x ∷ hs) h a e =
    let other : (x.id == n) ≡ false = ground (arith, a.0) in rw other (find_hand-new n hs h a.1 e)

find_hand-old :
    (j : ℕ) (hs : List HandRow) (h : HandRow)
    → h.id ≢ j
    → find_hand j (hs ++ (h ∷ [])) ≡ find_hand j hs
find_hand-old j [] h e = ground arith
find_hand-old j (x ∷ hs) h e = ap (λ o. if x.id == j then some x else o) (find_hand-old j hs h e)

seats-append :
    (j : ℕ) (xs ys : List (ℕ × HandSeatRecord))
    → seats_of_hand j (xs ++ ys) ≡ seats_of_hand j xs ++ seats_of_hand j ys
seats-append j [] ys = refl
seats-append j ((i, s) ∷ xs) ys = elim (Bool-cases (i == j)) [
  | inl e ↦ rw (e, seats-append j xs ys) refl
  | inr e ↦ rw (e, seats-append j xs ys) refl
]

seats-none :
    (n : ℕ) (rows : List (ℕ × HandSeatRecord))
    → All (λ (row : ℕ × HandSeatRecord). row.0 < n) rows
    → seats_of_hand n rows ≡ []
seats-none n [] a = refl
seats-none n ((i, s) ∷ rows) a =
    let other : (i == n) ≡ false = ground (arith, a.0) in rw other (seats-none n rows a.1)

seats-rows : (n : ℕ) (ss : List HandSeatRecord) → seats_of_hand n (rows_of n ss) ≡ ss
seats-rows n [] = refl
seats-rows n (s ∷ ss) =
    let same : (n == n) ≡ true = ground arith in rw same (ap (◌∷◌ s) (seats-rows n ss))

seats-other : (n j : ℕ) (ss : List HandSeatRecord) → n ≢ j → seats_of_hand j (rows_of n ss) ≡ []
seats-other n j [] h = refl
seats-other n j (s ∷ ss) h =
    let other : (n == j) ≡ false = ground arith in rw other (seats-other n j ss h)

kept-seats :
    (n j : ℕ) (rows : List (ℕ × HandSeatRecord)) (ss : List HandSeatRecord)
    → n ≢ j
    → seats_of_hand j (rows ++ rows_of n ss) ≡ seats_of_hand j rows
kept-seats n j rows ss h =
    seats-append j rows (rows_of n ss)
    ∙ rw (seats-other n j ss h, append-nil (seats_of_hand j rows)) refl

All-below :
    (n : ℕ) (hs : List HandRow) (h : HandRow)
    → All (λ (x : HandRow). x.id < n) hs
    → h.id ≡ n
    → All (λ (x : HandRow). x.id < n + 1) (hs ++ (h ∷ []))
All-below n [] h a e = (omega arith, tt)
All-below n (x ∷ hs) h a e = (omega (arith, a.0), All-below n hs h a.1 e)

rows-below :
    (n : ℕ) (rows : List (ℕ × HandSeatRecord)) (ss : List HandSeatRecord)
    → All (λ (row : ℕ × HandSeatRecord). row.0 < n) rows
    → All (λ (row : ℕ × HandSeatRecord). row.0 < n + 1) (rows ++ rows_of n ss)
rows-below n [] [] a = tt
rows-below n [] (s ∷ ss) a = (omega arith, rows-below n [] ss a)
rows-below n (row ∷ rows) ss a = (omega (arith, a.0), rows-below n rows ss a.1)

-- A hand is recorded if and only if its rows name no seat twice and no player that is not a user;
-- else it is an error. Under its id a recorded hand is fetched again, with its table, times and log,
-- and its seats in their order; every other hand is fetched as before; there is one hand more; and
-- the ids given out stay below the next one. It is assumed that the ids given out before are below
-- the next one.
pub record_hand_lem :
    (table_id started_at ended_at : ℕ) (log : List ℕ) (seats : List HandSeatRecord) (r : Registry)
    → IsNumbered r.db
    → ((repeats_seat seats || names_stranger r.db.users seats ≡ true)
        × (record_hand table_id started_at ended_at log seats r ≡ none))
      ⊎ ((repeats_seat seats ≡ false)
          × (names_stranger r.db.users seats ≡ false)
          × (id : ℕ) × (after : Registry) × (record_hand table_id started_at ended_at log seats r
              ≡ some (id, after))
          × (fetch_hand id after
              ≡ some (record {
                hand = record {
                  id = id;
                  table_id = table_id;
                  started_at = started_at;
                  ended_at = ended_at;
                  log = log;
                };
                seats = by_seat seats;
              }))
          × ((j : ℕ) → id ≢ j → fetch_hand j after ≡ fetch_hand j r)
          × (count_hands after ≡ count_hands r + 1)
          × IsNumbered after.db)
unfolding record_hand fetch_hand
record_hand_lem t s e log seats r x =
    elim (Bool-cases (repeats_seat seats || names_stranger r.db.users seats)) [
      | inl q ↦ inl (q, rw q refl)
      | inr q ↦
          (let n = r.db.next_hand in
            let h : HandRow = record {
              id = n;
              table_id = t;
              started_at = s;
              ended_at = e;
              log = log;
            } in
            let mine =
              seats-append n r.db.hand_seats (rows_of n seats)
              ∙ ap (λ ys. ys ++ seats_of_hand n (rows_of n seats))
                  (seats-none n r.db.hand_seats x.seats)
              ∙ seats-rows n seats in
            inr (
              ground arith,
              ground arith,
              n,
              record r {
                db = record (r.db) {
                  hands = r.db.hands ++ (h ∷ []);
                  hand_seats = r.db.hand_seats ++ rows_of n seats;
                  next_hand = n + 1;
                };
              },
              rw q refl,
              rw (mine, find_hand-new n r.db.hands h x.hands refl) refl,
              (λ j apart.
                  rw
                    (kept-seats n j r.db.hand_seats seats apart, find_hand-old j r.db.hands h apart)
                    refl),
              length-append r.db.hands (h ∷ []),
              record {
                hands = All-below n r.db.hands h x.hands refl;
                seats = rows-below n r.db.hand_seats seats x.seats;
              },
            ))
    ]
