-- ===== src/Server/Table/Owners.antt =====
-- crates/poker-server/src/connection.rs and table.rs: whose connection drives a link.
use vibe_poker.Base.{
  ℕ, ◌+◌, List, [], ◌∷◌, ◌++◌, Option, none, some, get_elem?, get_elem?-update_same,
  get_elem?-append, ◌≡◌, ◌∙◌, refl, sym, ap, arith, inl, inr, All, Option-cases,
}
use vibe_poker.Net.Protocol.{ServerMessage}
use vibe_poker.Game.Event.{
  EngineEvent, HandResult, hand_started, hole_cards_dealt, board_dealt, action_taken, player_all_in,
  hand_ended,
}
use vibe_poker.Server.Store.{
  Store, Connection, SeatLink, current, inner_of, on_connection, on_link, queued, try_send,
  try_send_at, send_current, replay_push, replay_begin, replay_end, pushed,
}
use vibe_poker.Server.Store.Mail.{current-on_link}
use vibe_poker.Server.Table.{Seat, send_each}
use vibe_poker.Server.Sink.{
  BroadcastSink, fan, fan_each, broadcast_all, send_at, send_to, fan_end, begin_each, seal_each,
  spread,
}

abbrev pub id_of : Option Connection → Option ℕ
id_of none = none
id_of (some c) = some c.player_id

abbrev pub owner_at : Store → Option ℕ → Option ℕ
owner_at w none = none
owner_at w (some conn) = id_of (get_elem? w.connections conn)

-- The player of the connection that drives a link.
abbrev pub player_of : Store → ℕ → Option ℕ
player_of w link = owner_at w (current w link)

-- Links keep their players.
abbrev pub IsKeeping : Store → Store → Type 0
IsKeeping w v = (l p : ℕ) → player_of w l ≡ some p → player_of v l ≡ some p

abbrev pub IsLinked : Store → Option Seat → Type 0
IsLinked w none = Unit
IsLinked w (some s) = player_of w s.link ≡ some s.player_id

pub IsLinked-kept :
    (w v : Store) (seats : List (Option Seat))
    → IsKeeping w v
    → All (IsLinked w) seats
    → All (IsLinked v) seats
IsLinked-kept w v [] h a = tt
IsLinked-kept w v (none ∷ seats) h a = (tt, IsLinked-kept w v seats h a.1)
IsLinked-kept w v (some s ∷ seats) h a = (h s.link s.player_id a.0, IsLinked-kept w v seats h a.1)

pub owner_at-on_connection :
    (conn : ℕ) (g : Connection → Connection) (w : Store) (o : Option ℕ)
    → ((c : Connection) → (g c).player_id ≡ c.player_id)
    → owner_at (on_connection conn g w) o ≡ owner_at w o
owner_at-on_connection conn g w none h = refl
owner_at-on_connection conn g w (some c) h =
    get_elem?-update_same id_of g w.connections conn c (λ x. ap some (h x))

pub on_connection-IsKeeping :
    (conn : ℕ) (g : Connection → Connection) (w : Store)
    → ((c : Connection) → (g c).player_id ≡ c.player_id)
    → IsKeeping w (on_connection conn g w)
on_connection-IsKeeping conn g w h l p e = owner_at-on_connection conn g w (current w l) h ∙ e

pub on_link-IsKeeping :
    (link : ℕ) (g : SeatLink → SeatLink) (w : Store)
    → ((l : SeatLink) → (g l).inner ≡ l.inner)
    → IsKeeping w (on_link link g w)
on_link-IsKeeping link g w h l p e = ap (owner_at w) (current-on_link link l g w h) ∙ e

pub queued-player : (msg : ServerMessage) (c : Connection) → (queued msg c).player_id ≡ c.player_id
unfolding queued
queued-player msg c = ground arith

pub try_send-IsKeeping :
    (conn : ℕ) (msg : ServerMessage) (w : Store) → IsKeeping w (try_send conn msg w)
try_send-IsKeeping conn msg w = on_connection-IsKeeping conn (queued msg) w (queued-player msg)

try_send_at-IsKeeping :
    (o : Option ℕ) (msg : ServerMessage) (w : Store) → IsKeeping w (try_send_at o msg w)
try_send_at-IsKeeping none msg w l p e = e
try_send_at-IsKeeping (some conn) msg w l p e = try_send-IsKeeping conn msg w l p e

send_current-IsKeeping :
    (link : ℕ) (msg : ServerMessage) (w : Store) → IsKeeping w (send_current link msg w)
unfolding send_current
send_current-IsKeeping link msg w = try_send_at-IsKeeping (current w link) msg w

pub send_each-IsKeeping :
    (links : List ℕ) (msg : ServerMessage) (w : Store) → IsKeeping w (send_each links msg w)
unfolding send_each
send_each-IsKeeping [] msg w l p e = e
send_each-IsKeeping (k ∷ ks) msg w l p e =
    send_each-IsKeeping ks msg (send_current k msg w) l p (send_current-IsKeeping k msg w l p e)

fan-IsKeeping : (msg : ServerMessage) (link : ℕ) (w : Store) → IsKeeping w (fan msg link w)
unfolding fan replay_push
fan-IsKeeping msg link w l p e =
    send_current-IsKeeping link msg (replay_push msg link w) l p
      (on_link-IsKeeping link (λ x. record x { replay = pushed msg x.replay }) w (λ _. refl) l p e)

fan_each-IsKeeping :
    (msg : ServerMessage) (links : List ℕ) (w : Store) → IsKeeping w (fan_each msg links w)
unfolding fan_each
fan_each-IsKeeping msg [] w l p e = e
fan_each-IsKeeping msg (k ∷ ks) w l p e =
    fan_each-IsKeeping msg ks (fan msg k w) l p (fan-IsKeeping msg k w l p e)

fan_end-IsKeeping :
    (k : BroadcastSink) (hand_id : ℕ) (r : HandResult) (i : ℕ) (links : List ℕ) (w : Store)
    → IsKeeping w (fan_end k hand_id r i links w)
unfolding fan_end
fan_end-IsKeeping k h r i [] w l p e = e
fan_end-IsKeeping k h r i (x ∷ xs) w l p e =
    fan_end-IsKeeping k h r (i + 1) xs _ l p (fan-IsKeeping _ x w l p e)

begin_each-IsKeeping :
    (hand_id : ℕ) (links : List ℕ) (w : Store) → IsKeeping w (begin_each hand_id links w)
unfolding begin_each replay_begin
begin_each-IsKeeping h [] w l p e = e
begin_each-IsKeeping h (k ∷ ks) w l p e =
    begin_each-IsKeeping h ks (replay_begin h k w) l p (on_link-IsKeeping k _ w (λ _. refl) l p e)

seal_each-IsKeeping : (links : List ℕ) (w : Store) → IsKeeping w (seal_each links w)
unfolding seal_each replay_end
seal_each-IsKeeping [] w l p e = e
seal_each-IsKeeping (k ∷ ks) w l p e =
    seal_each-IsKeeping ks (replay_end k w) l p (on_link-IsKeeping k _ w (λ _. refl) l p e)

send_at-IsKeeping : (o : Option ℕ) (msg : ServerMessage) (w : Store) → IsKeeping w (send_at o msg w)
unfolding send_at
send_at-IsKeeping none msg w l p e = e
send_at-IsKeeping (some k) msg w l p e = fan-IsKeeping msg k w l p e

-- The events of a hand.
pub spread-IsKeeping :
    (e : EngineEvent) (k : BroadcastSink) (w : Store) → IsKeeping w (spread e k w)
unfolding spread broadcast_all send_to
spread-IsKeeping (hand_started i d s) k w l p e =
    fan_each-IsKeeping _ k.links _ l p (begin_each-IsKeeping i k.links w l p e)
spread-IsKeeping (hole_cards_dealt seat cards) k w l p e =
    send_at-IsKeeping (get_elem? k.links seat) _ w l p e
spread-IsKeeping (board_dealt _ _) k w l p e = fan_each-IsKeeping _ k.links w l p e
spread-IsKeeping (action_taken _ _ _) k w l p e = fan_each-IsKeeping _ k.links w l p e
spread-IsKeeping (player_all_in _ _) k w l p e = fan_each-IsKeeping _ k.links w l p e
spread-IsKeeping (hand_ended i r) k w l p e =
    seal_each-IsKeeping k.links _ l p (fan_end-IsKeeping k i r 0 k.links w l p e)

-- A new link, at the end.
pub added-IsKeeping :
    (x : SeatLink) (w : Store) → IsKeeping w (record w { links = w.links ++ (x ∷ []) })
added-IsKeeping x w l p e = elim (Option-cases (get_elem? w.links l)) [
  | inl q ↦ (let none_some = sym (ap (λ o. owner_at w (inner_of o)) q) ∙ e in absurd (ground arith))
  | inr (y, q) ↦
      ap (λ o. owner_at w (inner_of o)) (get_elem?-append w.links (x ∷ []) l q ∙ sym q) ∙ e
]
