-- ===== src/Server/Occupancy.antt =====
-- crates/poker-server/src/table.rs and connection.rs: what may happen to a table and to the store,
-- and that a player holds one seat at most, on a link which that player's connection drives.
use vibe_poker.Base.{
  ℕ, ◌+◌, ◌≤◌, Bool, true, false, ◌||◌, List, [], ◌∷◌, ◌++◌, map, Option, none, some, get_elem?,
  get_elem?-append_last, get_elem?-update_keeps, set, update, length, count_if, position_from,
  position_from-found, mul32, ltb, ◌==◌, if◌then◌else◌, ◌≡◌, ◌∙◌, refl, sym, ap, arith, Bool-cases,
  inl, inr, All, All-set, All-map, All-update,
}
use vibe_poker.Game.Event.{HandResult, SeatOutcome}
use vibe_poker.Net.Protocol.{ServerMessage}
use vibe_poker.Server.Store.{
  Store, Connection, PendingAction, on_link, queued, new_link, on_connection, current, inner_of,
  try_send, take_pending,
}
use vibe_poker.Server.Table.{
  Seat, Table, seat_infos, holds, any, is_vacant, taken, SitResult, sat, refused, sit, sit_at,
  vacate, leave_at, force_from, force_leave, links_of, table_state, broadcast_table_state,
}
use vibe_poker.Server.Table.Seating.{
  IsRelease, vacate-IsRelease, count_if-update, count_if-map, count_if-absent, count_if-set,
  force_from-update,
}
use vibe_poker.Server.Table.Owners.{
  player_of, owner_at, id_of, IsKeeping, IsLinked, IsLinked-kept, owner_at-on_connection,
  queued-player, on_connection-IsKeeping, try_send-IsKeeping, send_each-IsKeeping, added-IsKeeping,
}
use vibe_poker.Server.Takeover.{
  reconnect_player, reconnect_at, take_over, take_at, pending_at, migrate, reprompt, seat_link_for,
  seat_link_from,
}
use vibe_poker.Server.Round.{apply_hand_result, settle_table, pay_outcomes, paid, stays}

-- The invariant of the seats.
pub record IsOccupied (seats : List (Option Seat)) (w : Store) : Type 0 where
  pub once : (p : ℕ) → count_if (holds p) seats ≤ 1
  pub linked : All (IsLinked w) seats

-- Seats that change hands only to be released.
abbrev IsReleasing : Store → (Option Seat → Option Seat) → Type 0
IsReleasing w f = IsRelease f × ((s : Option Seat) → IsLinked w s → IsLinked w (f s))

update-IsOccupied :
    (f : Option Seat → Option Seat) (seats : List (Option Seat)) (i : ℕ) (w : Store)
    → IsReleasing w f
    → IsOccupied seats w
    → IsOccupied (update f seats i) w
update-IsOccupied f seats i w (r, h) x = record {
  once = λ p. omega (arith, count_if-update f r p seats i, x.once p);
  linked = All-update (IsLinked w) f seats i h x.linked;
}

map-IsOccupied :
    (f : Option Seat → Option Seat) (seats : List (Option Seat)) (w : Store)
    → IsReleasing w f
    → IsOccupied seats w
    → IsOccupied (map f seats) w
map-IsOccupied f seats w (r, h) x = record {
  once = λ p. omega (arith, count_if-map f r p seats, x.once p);
  linked = All-map (IsLinked w) f seats h x.linked;
}

pub kept-IsOccupied :
    (seats : List (Option Seat)) (w v : Store)
    → IsKeeping w v
    → IsOccupied seats w
    → IsOccupied seats v
kept-IsOccupied seats w v k x = record {
  once = x.once;
  linked = IsLinked-kept w v seats k x.linked;
}

vacate-IsLinked : (b : Bool) (w : Store) (s : Option Seat) → IsLinked w s → IsLinked w (vacate b s)
vacate-IsLinked true w none h = h
vacate-IsLinked true w (some s) h = h
vacate-IsLinked false w s h = tt

vacate-IsReleasing : (b : Bool) (w : Store) → IsReleasing w (vacate b)
vacate-IsReleasing b w = (vacate-IsRelease b, vacate-IsLinked b w)

-- The seats of the table that is left, if it was.
abbrev pub seats_of : List (Option Seat) → Option Table → List (Option Seat)
seats_of d none = d
seats_of d (some t) = t.seats

pub leave_at-IsOccupied :
    (o : Option ℕ) (t : Table) (w : Store)
    → IsOccupied t.seats w
    → IsOccupied (seats_of t.seats (leave_at o t)) w
unfolding leave_at
leave_at-IsOccupied none t w x = x
leave_at-IsOccupied (some i) t w x =
    update-IsOccupied (vacate t.hand_in_progress) t.seats i w
      (vacate-IsReleasing t.hand_in_progress w) x

abbrev pub sat_seats : List (Option Seat) → SitResult → List (Option Seat)
sat_seats d (sat i t w) = t.seats
sat_seats d (refused e) = d

abbrev pub sat_store : Store → SitResult → Store
sat_store d (sat i t w) = w
sat_store d (refused e) = d

vacant-none : (s : Option Seat) → is_vacant s ≡ true → s ≡ none
vacant-none none h = refl
vacant-none (some s) h = absurd (ground arith)

-- A player who has no seat takes a vacant one.
seated-IsOccupied :
    (conn : ℕ) (c : Connection) (s : Seat) (i : ℕ) (seats : List (Option Seat)) (w : Store)
    → get_elem? w.connections conn ≡ some c
    → get_elem? seats i ≡ some none
    → any (holds c.player_id) seats ≡ false
    → s.player_id ≡ c.player_id
    → s.link ≡ length w.links
    → IsOccupied seats w
    → IsOccupied (set seats i (some s)) (record w { links = w.links ++ (new_link conn ∷ []) })
seated-IsOccupied conn c s i seats w g vacant absent player link x = record {
  once = λ p. rw (count_if-set p seats i s vacant) (elim (Bool-cases (s.player_id == p)) [
    | inl e ↦
        (let same : c.player_id ≡ p = ground arith in
          let zero_held = count_if-absent p seats (rw (sym same) absent) in
          rw e (omega (arith, zero_held)))
    | inr e ↦ rw e (omega (arith, x.once p))
  ]);
  linked =
      let v = record w { links = w.links ++ (new_link conn ∷ []) } in
      let driven =
        ap inner_of (ap (get_elem? v.links) link ∙ get_elem?-append_last w.links (new_link conn)) in
      All-set (IsLinked v) seats i (some s)
        (IsLinked-kept w v seats (added-IsKeeping (new_link conn) w) x.linked)
        (ap (owner_at v) driven ∙ ap id_of g ∙ ap some (sym player));
}

sit_at-IsOccupied :
    (o : Option ℕ) (conn : ℕ) (c : Connection) (buy_in : ℕ) (t : Table) (w : Store)
    → get_elem? w.connections conn ≡ some c
    → position_from 0 is_vacant t.seats ≡ o
    → any (holds c.player_id) t.seats ≡ false
    → IsOccupied t.seats w
    → IsOccupied
        (sat_seats t.seats (sit_at o conn c buy_in t w))
        (sat_store w (sit_at o conn c buy_in t w))
unfolding sit_at
sit_at-IsOccupied none conn c buy_in t w g e absent x = x
sit_at-IsOccupied (some k) conn c buy_in t w g e absent x =
    let (n, s, eq, at, vacant) = position_from-found 0 is_vacant t.seats k e in
    let there : k ≡ n = omega (arith, eq) in
    let here = ap (get_elem? t.seats) there ∙ at ∙ ap some (vacant-none s vacant) in
    seated-IsOccupied conn c (taken c buy_in (length w.links)) k t.seats w g here absent refl refl x

pub sit-IsOccupied :
    (conn : ℕ) (c : Connection) (buy_in : ℕ) (t : Table) (w : Store)
    → get_elem? w.connections conn ≡ some c
    → IsOccupied t.seats w
    → IsOccupied (sat_seats t.seats (sit conn c buy_in t w)) (sat_store w (sit conn c buy_in t w))
unfolding sit
sit-IsOccupied conn c buy_in t w g x =
    elim (Bool-cases (ltb buy_in (mul32 t.config.big_blind 10))) [
      | inl e ↦ rw e x
      | inr e ↦ elim (Bool-cases (any (holds c.player_id) t.seats)) [
        | inl q ↦ rw (e, q) x
        | inr q ↦
            rw (e, q)
              (sit_at-IsOccupied (position_from 0 is_vacant t.seats) conn c buy_in t w g refl q x)
      ]
    ]

if-IsOccupied :
    (b : Bool) (seats : List (Option Seat)) (v w : Store)
    → IsOccupied seats v
    → IsOccupied seats w
    → IsOccupied seats (if b then v else w)
if-IsOccupied true seats v w x y = x
if-IsOccupied false seats v w x y = y

pub force_leave-IsOccupied :
    (player_id : ℕ) (session : Option ℕ) (t : Table) (w : Store)
    → IsOccupied t.seats w
    → IsOccupied (force_leave player_id session t w).0.seats (force_leave player_id session t w).1
unfolding force_leave broadcast_table_state
force_leave-IsOccupied p session t w x =
    let forced = force_from w p session t.hand_in_progress t.seats in
    let left : IsOccupied forced.0 w =
      elim (force_from-update w p session t.hand_in_progress t.seats) [
        | inl (i, e) ↦ rw e (
            update-IsOccupied (vacate t.hand_in_progress) t.seats i w
              (vacate-IsReleasing t.hand_in_progress w) x)
        | inr e ↦ rw e x
      ] in
    if-IsOccupied forced.1 forced.0 _ w
      (kept-IsOccupied forced.0 w _
        (send_each-IsKeeping (links_of (λ s. true) forced.0)
          (table_state (record t { seats = forced.0 })) w)
        left)
      left

paid-IsReleasing : (delta : ℕ) (w : Store) → IsReleasing w (paid delta)
paid-IsReleasing delta w = (paid-holds, paid-linked)
  where
    paid-holds : IsRelease (paid delta)
    paid-holds p none h = h
    paid-holds p (some s) h = h

    paid-linked : (s : Option Seat) → IsLinked w s → IsLinked w (paid delta s)
    paid-linked none h = h
    paid-linked (some s) h = h

stays-IsReleasing : (w : Store) → IsReleasing w stays
stays-IsReleasing w = (stays-holds, stays-linked)
  where
    stays-holds : IsRelease stays
    stays-holds p none h = h
    stays-holds p (some s) h = ground arith

    stays-linked : (s : Option Seat) → IsLinked w s → IsLinked w (stays s)
    stays-linked none h = h
    stays-linked (some s) h = elim (Bool-cases (s.leave_pending || s.stack == 0)) [
      | inl e ↦ rw e tt
      | inr e ↦ rw e h
    ]

pay_outcomes-IsOccupied :
    (os : List SeatOutcome) (seats : List (Option Seat)) (w : Store)
    → IsOccupied seats w
    → IsOccupied (pay_outcomes os seats) w
unfolding pay_outcomes
pay_outcomes-IsOccupied [] seats w x = x
pay_outcomes-IsOccupied (o ∷ os) seats w x =
    pay_outcomes-IsOccupied os (update (paid o.chip_delta) seats o.seat) w
      (update-IsOccupied (paid o.chip_delta) seats o.seat w (paid-IsReleasing o.chip_delta w) x)

pub apply_hand_result-IsOccupied :
    (r : HandResult) (t : Table) (w : Store)
    → IsOccupied t.seats w
    → IsOccupied (apply_hand_result r t w).0.seats (apply_hand_result r t w).1
unfolding apply_hand_result settle_table
apply_hand_result-IsOccupied r t w x =
    let settled = settle_table r t in
    kept-IsOccupied settled.seats w _
      (send_each-IsKeeping (links_of (λ s. true) settled.seats) (table_state settled) w)
      (map-IsOccupied stays (pay_outcomes r.seats t.seats) w (stays-IsReleasing w)
        (pay_outcomes-IsOccupied r.seats t.seats w x))

-- The link of a seat turns to another connection of the seat's player.
retarget-IsKeeping :
    (link conn p : ℕ) (w : Store)
    → player_of w link ≡ some p
    → owner_at w (some conn) ≡ some p
    → IsKeeping w (on_link link (λ l. record l { inner = conn }) w)
retarget-IsKeeping link conn p w h own l q e =
    get_elem?-update_keeps (λ o. owner_at w (inner_of o) ≡ some q) (λ x. record x { inner = conn })
      w.links link l (λ same x _. own ∙ sym h ∙ ap (player_of w) same ∙ e) e

seat_link_from-player :
    (i p : ℕ) (seats : List (Option Seat)) (w : Store) (n link : ℕ)
    → seat_link_from i p seats ≡ some (n, link)
    → All (IsLinked w) seats
    → player_of w link ≡ some p
unfolding seat_link_from
seat_link_from-player i p [] w n link h a = absurd (ground arith)
seat_link_from-player i p (none ∷ seats) w n link h a =
    seat_link_from-player (i + 1) p seats w n link h a.1
seat_link_from-player i p (some s ∷ seats) w n link h a = elim (Bool-cases (s.player_id == p)) [
  | inl e ↦
      (let there : s.link ≡ link = ground arith in
        let same : s.player_id ≡ p = ground arith in
        ap (player_of w) (sym there) ∙ a.0 ∙ ap some same)
  | inr e ↦ seat_link_from-player (i + 1) p seats w n link (ground arith) a.1
]

take_at-IsKeeping : (o : Option ℕ) (w : Store) → IsKeeping w (take_at o w)
take_at-IsKeeping none w l p e = e
take_at-IsKeeping (some c) w l p e = on_connection-IsKeeping c take_pending w (λ _. refl) l p e

migrate-IsKeeping :
    (deadline : ℕ) (o : Option PendingAction) (conn : ℕ) (w : Store)
    → IsKeeping w (migrate deadline o conn w)
unfolding migrate
migrate-IsKeeping deadline none conn w l p e = e
migrate-IsKeeping deadline (some a) conn w l p e =
    try_send-IsKeeping conn (reprompt deadline a)
      (on_connection conn (λ c. record c { pending = some a }) w) l p
      (on_connection-IsKeeping conn (λ c. record c { pending = some a }) w (λ _. refl) l p e)

owner_at-take_at :
    (o : Option ℕ) (conn : ℕ) (w : Store)
    → owner_at (take_at o w) (some conn) ≡ owner_at w (some conn)
owner_at-take_at none conn w = refl
owner_at-take_at (some c) conn w = owner_at-on_connection c take_pending w (some conn) (λ _. refl)

reconnect_at-IsKeeping :
    (o : Option (ℕ × ℕ)) (conn p : ℕ) (t : Table) (w : Store)
    → seat_link_for p t ≡ o
    → owner_at w (some conn) ≡ some p
    → All (IsLinked w) t.seats
    → IsKeeping w (reconnect_at o conn t w).1
unfolding reconnect_at take_over seat_link_for
reconnect_at-IsKeeping none conn p t w h own a l q e = e
reconnect_at-IsKeeping (some (i, link)) conn p t w h own a l q e =
    let msg = ServerMessage.joined_table t.id i (seat_infos t) in
    let w1 = try_send conn msg w in
    let old = current w1 link in
    let w2 = take_at old w1 in
    let sent = try_send-IsKeeping conn msg w in
    let taken_over = take_at-IsKeeping old w1 in
    let p1 = sent link p (seat_link_from-player 0 p t.seats w i link h a) in
    let own2 =
      owner_at-take_at old conn w1
      ∙ owner_at-on_connection conn (queued msg) w (some conn) (queued-player msg)
      ∙ own in
    migrate-IsKeeping t.config.action_deadline (pending_at old w1) conn _ l q (
      retarget-IsKeeping link conn p w2 (taken_over link p p1) own2 l q
        (taken_over l q (sent l q e)))

pub reconnect_player-IsOccupied :
    (conn : ℕ) (c : Connection) (t : Table) (w : Store)
    → get_elem? w.connections conn ≡ some c
    → IsOccupied t.seats w
    → IsOccupied t.seats (reconnect_player conn c.player_id t w).1
unfolding reconnect_player
reconnect_player-IsOccupied conn c t w g x =
    kept-IsOccupied t.seats w _
      (reconnect_at-IsKeeping (seat_link_for c.player_id t) conn c.player_id t w refl (ap id_of g)
        x.linked)
      x
