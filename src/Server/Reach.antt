-- ===== src/Server/Reach.antt =====
-- crates/poker-server/src/table.rs and connection.rs: what may happen to a table and to the store, as
-- steps, and what holds of every table that they lead to.
pub mod Hands
use mathlib.Core.Path.{subst}
use vibe_poker.Base.{
  ℕ, zero, suc, ◌+◌, ◌≤◌, Bool, true, false, List, [], ◌∷◌, ◌++◌, Option, none, some, get_elem?,
  ◌≡◌, ◌∙◌, refl, sym, ap, arith, count_if, replicate, All, Bool-cases, inl, inr, not, ◌&&◌, leb,
  length, ltb, map, if◌then◌else◌, ◌==◌,
}
use vibe_poker.Game.Event.{EngineEvent, HandResult}
use vibe_poker.Net.Protocol.{ServerMessage}
use vibe_poker.Server.Store.{Store, Connection, new_link, try_send, on_connection}
use vibe_poker.Server.Table.{
  Seat, Table, TableConfig, new_table, holds, sat, sit, leave, force_leave, seated_count,
}
use vibe_poker.Server.Table.Owners.{
  IsLinked, try_send-IsKeeping, spread-IsKeeping, added-IsKeeping, on_connection-IsKeeping,
}
use vibe_poker.Server.Takeover.{reconnect_player}
use vibe_poker.Server.Round.{claim_hand, take_running_snapshot, abandon, apply_hand_result}
use vibe_poker.Server.Sink.{BroadcastSink, spread}
use vibe_poker.Server.Occupancy.{
  IsOccupied, kept-IsOccupied, seats_of, sat_seats, sat_store, leave_at-IsOccupied, sit-IsOccupied,
  force_leave-IsOccupied, apply_hand_result-IsOccupied, reconnect_player-IsOccupied,
}

-- A table and the store after one more operation on them. The connection of an operation is one of
-- the player that it is for; what other tables do adds links and sends messages.
pub data Step : Table × Store → Table × Store → Type 0 where
  sits :
      (conn : ℕ) (c : Connection) (buy_in i : ℕ) (t u : Table) (w v : Store)
      → get_elem? w.connections conn ≡ some c
      → sit conn c buy_in t w ≡ sat i u v
      → Step (t, w) (u, v)
  leaves :
      (player_id : ℕ) (t u : Table) (w : Store) → leave player_id t ≡ some u → Step (t, w) (u, w)
  leaves_by_force :
      (player_id : ℕ) (session : Option ℕ) (t : Table) (w : Store)
      → Step (t, w) (force_leave player_id session t w)
  reconnects :
      (conn : ℕ) (c : Connection) (t : Table) (w : Store)
      → get_elem? w.connections conn ≡ some c
      → Step (t, w) (t, (reconnect_player conn c.player_id t w).1)
  claims : (t u : Table) (w : Store) → claim_hand t ≡ some u → Step (t, w) (u, w)
  snapshots : (t : Table) (w : Store) → Step (t, w) ((take_running_snapshot t).0, w)
  abandons : (t : Table) (w : Store) → Step (t, w) (abandon t, w)
  plays :
      (e : EngineEvent) (k : BroadcastSink) (t : Table) (w : Store) → Step (t, w) (t, spread e k w)
  settles : (r : HandResult) (t : Table) (w : Store) → Step (t, w) (apply_hand_result r t w)
  sends :
      (conn : ℕ) (msg : ServerMessage) (t : Table) (w : Store)
      → Step (t, w) (t, try_send conn msg w)
  adds_link :
      (conn : ℕ) (t : Table) (w : Store)
      → Step (t, w) (t, record w { links = w.links ++ (new_link conn ∷ []) })

-- What a table can come to from when it is made.
pub data Reached : Table × Store → Type 0 where
  made : (id : ℕ) (config : TableConfig) (w : Store) → Reached (new_table id config, w)
  after : (x y : Table × Store) → Reached x → Step x y → Reached y

claim_hand-seats : (t : Table) → seats_of t.seats (claim_hand t) ≡ t.seats
unfolding claim_hand
claim_hand-seats t =
    elim (Bool-cases (not t.hand_in_progress && leb t.config.min_seats (seated_count t.seats))) [
      | inl e ↦ rw e refl
      | inr e ↦ rw e refl
    ]

-- A step keeps the seats in order.
Step-IsOccupied :
    (x y : Table × Store) → Step x y → IsOccupied x.0.seats x.1 → IsOccupied y.0.seats y.1
unfolding leave take_running_snapshot abandon
Step-IsOccupied _ _ (sits conn c buy_in i t u w v g h) x =
    subst (λ r. IsOccupied (sat_seats t.seats r) (sat_store w r)) h
      (sit-IsOccupied conn c buy_in t w g x)
Step-IsOccupied _ _ (leaves p t u w h) x =
    subst (λ o. IsOccupied (seats_of t.seats o) w) h (leave_at-IsOccupied _ t w x)
Step-IsOccupied _ _ (leaves_by_force p session t w) x = force_leave-IsOccupied p session t w x
Step-IsOccupied _ _ (reconnects conn c t w g) x = reconnect_player-IsOccupied conn c t w g x
Step-IsOccupied _ _ (claims t u w h) x =
    subst (λ seats. IsOccupied seats w) (sym (claim_hand-seats t) ∙ ap (seats_of t.seats) h) x
Step-IsOccupied _ _ (snapshots t w) x = x
Step-IsOccupied _ _ (abandons t w) x = x
Step-IsOccupied _ _ (plays e k t w) x = kept-IsOccupied t.seats w _ (spread-IsKeeping e k w) x
Step-IsOccupied _ _ (settles r t w) x = apply_hand_result-IsOccupied r t w x
Step-IsOccupied _ _ (sends conn msg t w) x =
    kept-IsOccupied t.seats w _ (try_send-IsKeeping conn msg w) x
Step-IsOccupied _ _ (adds_link conn t w) x =
    kept-IsOccupied t.seats w _ (added-IsKeeping (new_link conn) w) x

fresh-IsOccupied : (n : ℕ) (w : Store) → IsOccupied (replicate n none) w
fresh-IsOccupied n w = record { once = fresh-once n; linked = fresh-linked n }
  where
    fresh-once : (k p : ℕ) → count_if (holds p) (replicate k none) ≤ 1
    fresh-once zero p = omega arith
    fresh-once (suc k) p = omega (arith, fresh-once k p)

    fresh-linked : (k : ℕ) → All (IsLinked w) (replicate k none)
    fresh-linked zero = tt
    fresh-linked (suc k) = (tt, fresh-linked k)

-- At every table, whatever happened to it and to the store since it was made: no player holds two
-- seats, and the connection that drives the link of a seat is one of the seat's player.
pub Reached-IsOccupied : (x : Table × Store) → Reached x → IsOccupied x.0.seats x.1
Reached-IsOccupied _ (made id config w) = fresh-IsOccupied config.max_seats w
Reached-IsOccupied _ (after x y r s) = Step-IsOccupied x y s (Reached-IsOccupied x r)
