-- ===== src/Server/Sink.antt =====
-- crates/poker-server/src/table.rs: `BroadcastSink`, which hands the events of a hand to the seats,
-- each with the hole cards that it may see.
pub mod Links
pub mod Privacy
pub mod Hands
pub mod Buffers
pub mod Steps
pub mod Told
pub mod Replay
pub mod CatchUp
use vibe_poker.Base.{
  ℕ, ◌+◌, Bool, true, false, not, ◌&&◌, ◌||◌, List, [], ◌∷◌, ◌++◌, map, Option, none, some,
  get_elem?, length, leb, ◌==◌, if◌then◌else◌,
}
use vibe_poker.Game.Action.{Action, fold}
use vibe_poker.Game.Event.{
  EngineEvent, SeatOutcome, HandResult, hand_started, hole_cards_dealt, board_dealt, action_taken,
  player_all_in, hand_ended,
}
use vibe_poker.Net.Protocol.{ServerMessage}
use vibe_poker.Server.Store.{Store, replay_begin, replay_push, replay_end, send_current}

-- `folded` is a set of seats. The bytes of the log are left out: they are the frames of the events.
pub record BroadcastSink : Type 0 where
  pub table_id : ℕ
  pub links : List ℕ
  pub folded : List ℕ
  pub board_cards : ℕ
  pub log : List EngineEvent

-- `BroadcastSink::new`
abbrev pub new_sink : ℕ → List ℕ → BroadcastSink
new_sink table_id links = record {
  table_id = table_id;
  links = links;
  folded = [];
  board_cards = 0;
  log = [];
}

-- `HashSet::contains`
abbrev pub mem : ℕ → List ℕ → Bool
mem x [] = false
mem x (y ∷ ys) = if y == x then true else mem x ys

-- A message goes to the seat's replay buffer and to its current connection.
unfoldable pub fan : ServerMessage → ℕ → Store → Store
unfolding replay_push send_current
fan msg link w = send_current link msg (replay_push msg link w)

unfoldable pub fan_each : ServerMessage → List ℕ → Store → Store
unfolding fan
fan_each msg [] w = w
fan_each msg (link ∷ links) w = fan_each msg links (fan msg link w)

-- `BroadcastSink::broadcast_all`
unfoldable pub broadcast_all : BroadcastSink → EngineEvent → Store → Store
unfolding fan_each
broadcast_all k event w = fan_each (ServerMessage.table_event k.table_id event) k.links w

unfoldable pub send_at : Option ℕ → ServerMessage → Store → Store
unfolding fan
send_at none msg w = w
send_at (some link) msg w = fan msg link w

-- `BroadcastSink::send_to`
unfoldable pub send_to : BroadcastSink → ℕ → EngineEvent → Store → Store
unfolding send_at
send_to k seat event w =
    send_at (get_elem? k.links seat) (ServerMessage.table_event k.table_id event) w

-- The seats from `i` on, as many as there are links, that have not folded.
abbrev pub non_folded_from : List ℕ → ℕ → List ℕ → ℕ
non_folded_from folded i [] = 0
non_folded_from folded i (link ∷ links) =
    (if mem i folded then 0 else 1) + non_folded_from folded (i + 1) links

unfoldable pub is_showdown : BroadcastSink → Bool
is_showdown k = leb 5 k.board_cards && leb 2 (non_folded_from k.folded 0 k.links)

-- Does the end of the hand show this seat's cards to all?
abbrev pub reveals : BroadcastSink → ℕ → Bool
reveals k seat = is_showdown k && not (mem seat k.folded)

abbrev pub masked : BroadcastSink → ℕ → SeatOutcome → SeatOutcome
masked k recipient o =
    if o.seat == recipient || reveals k o.seat then o else record o { hole_cards = none }

-- `BroadcastSink::filtered_hand_end`
unfoldable pub filtered_hand_end : BroadcastSink → ℕ → HandResult → HandResult
unfolding is_showdown
filtered_hand_end k recipient r = record r { seats = map (masked k recipient) r.seats }

-- The end of the hand, from the engine's seat `i` on.
unfoldable pub fan_end : BroadcastSink → ℕ → HandResult → ℕ → List ℕ → Store → Store
unfolding fan filtered_hand_end
fan_end k hand_id r i [] w = w
fan_end k hand_id r i (link ∷ links) w = fan_end k hand_id r (i + 1) links (
    fan (ServerMessage.table_event k.table_id (hand_ended hand_id (filtered_hand_end k i r))) link
      w)

unfoldable pub begin_each : ℕ → List ℕ → Store → Store
unfolding replay_begin
begin_each hand_id [] w = w
begin_each hand_id (link ∷ links) w = begin_each hand_id links (replay_begin hand_id link w)

unfoldable pub seal_each : List ℕ → Store → Store
unfolding replay_end
seal_each [] w = w
seal_each (link ∷ links) w = seal_each links (replay_end link w)

abbrev pub is_fold : Action → Bool
is_fold fold = true
is_fold _ = false

-- What the sink keeps of an event. The log gets it first, unfiltered.
unfoldable pub noted : EngineEvent → BroadcastSink → BroadcastSink
noted (action_taken seat action pot_total) k = record k {
  log = k.log ++ (action_taken seat action pot_total ∷ []);
  folded = if is_fold action then seat ∷ k.folded else k.folded;
}
noted (board_dealt street cards) k = record k {
  log = k.log ++ (board_dealt street cards ∷ []);
  board_cards = k.board_cards + length cards;
}
noted (hand_ended hand_id result) k = record k {
  log = k.log ++ (hand_ended hand_id result ∷ []);
  folded = [];
  board_cards = 0;
}
noted e k = record k { log = k.log ++ (e ∷ []) }

-- What the seats get of an event.
unfoldable pub spread : EngineEvent → BroadcastSink → Store → Store
unfolding broadcast_all send_to fan_end begin_each seal_each
spread (hand_started hand_id dealer deck_seed) k w =
    broadcast_all k (hand_started hand_id dealer deck_seed) (begin_each hand_id k.links w)
spread (hole_cards_dealt seat cards) k w = send_to k seat (hole_cards_dealt seat cards) w
spread (action_taken seat action pot_total) k w =
    broadcast_all k (action_taken seat action pot_total) w
spread (board_dealt street cards) k w = broadcast_all k (board_dealt street cards) w
spread (hand_ended hand_id result) k w = seal_each k.links (fan_end k hand_id result 0 k.links w)
spread (player_all_in seat total_committed) k w =
    broadcast_all k (player_all_in seat total_committed) w

-- `BroadcastSink::on_event`
unfoldable pub on_event : EngineEvent → BroadcastSink × Store → BroadcastSink × Store
unfolding noted spread
on_event e (k, w) = (noted e k, spread e k w)

-- The events of a hand alone; `Server/Sink/Steps` has what comes between them.
unfoldable pub on_events : List EngineEvent → BroadcastSink × Store → BroadcastSink × Store
unfolding on_event
on_events [] s = s
on_events (e ∷ es) s = on_events es (on_event e s)
