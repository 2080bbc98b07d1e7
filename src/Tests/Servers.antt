-- ===== src/Tests/Servers.antt =====
-- Tables, hands and replays of the server at concrete inputs.
use vibe_poker.Base.{
  ℕ, zero, suc, ◌+◌, ◌%◌, ◌≤◌, true, false, ◌||◌, ◌⊎◌, ◌≡◌, refl, List, [], ◌∷◌, ◌++◌, none, some,
  get_elem?, ◌==◌, if◌then◌else◌, arith, sub32, mul32, ap, sym, ◌∙◌,
}
use vibe_poker.Game.Action.{Action, LegalActions, is_legal, fold, call}
use vibe_poker.Game.Event.{
  EngineEvent, HandResult, hand_started, hole_cards_dealt, action_taken, hand_ended,
}
use vibe_poker.Client.Core.{ClientCore, new_core}
use vibe_poker.Client.Inbound.{handle_inbound, handle_all}
use vibe_poker.Net.Protocol.{ServerMessage, ServerMessages}
use vibe_poker.Server.Store.{
  Store, Connection, PendingAction, new_connection, new_link, pending_of, deliver_action, current,
  replay_snapshot, deliver_to, respond, cancel_pending, replay_push, queued,
}
use vibe_poker.Server.Store.Delivery.{IsDelivered, deliver_action-once}
use vibe_poker.Server.Table.{Table, TableConfig, new_table, taken, sat, sit, sit_at}
use vibe_poker.Server.Takeover.{take_over}
use vibe_poker.Server.Takeover.Prompts.{take_over-moves}
use vibe_poker.Server.Round.{settle_table, take_running_snapshot, playing_from}
use vibe_poker.Server.Round.Button.{is_taken, settle_table_button}
use vibe_poker.Server.Round.Payout.{settle_table_seat}
use vibe_poker.Server.Sink.{BroadcastSink, spread, new_sink, on_event, on_events}
use vibe_poker.Server.Sink.Privacy.{fair, IsClean, IsSole}
use vibe_poker.Server.Sink.Hands.{shown_by, hand_privacy}
use vibe_poker.Server.Sink.Replay.{seen_by, events_at, replay_snapshot-on_events}
use vibe_poker.Server.Sink.Steps.{
  HandStep, shown, asked, submitted, answered, departed, hand_step, hand_steps, told, told_by,
  ask_seat, conclude_seat,
}
use vibe_poker.Server.Sink.CatchUp.{replay_catches_up}
use vibe_poker.Server.Session.{to_messages}
use vibe_poker.Server.Agent.{RemoteAgent, ask, conclude}
use vibe_poker.Server.Agent.Answers.{act-answered}
use vibe_poker.Server.Occupancy.{IsOccupied}
use vibe_poker.Server.Reach.{Reached, made, after, sits, Reached-IsOccupied}
use vibe_poker.Server.Reach.Hands.{table_privacy}

abbrev alice : Connection
alice = new_connection 1 "alice" 10

abbrev bob : Connection
bob = new_connection 2 "bob" 20

abbrev config : TableConfig
config = record {
  name = "Main";
  max_seats = 2;
  min_seats = 2;
  small_blind = 1;
  big_blind = 2;
  default_buy_in = 200;
  action_deadline = 30000;
  between_hands = 500;
}

abbrev empty_room : Store
empty_room = record { connections = alice ∷ bob ∷ []; links = []; waiting = []; resolved = [] }

abbrev one_in : Store
one_in = record empty_room { links = new_link 0 ∷ [] }

abbrev both_in : Store
both_in = record empty_room { links = new_link 0 ∷ new_link 1 ∷ [] }

abbrev table0 : Table
table0 = new_table 5 config

abbrev table1 : Table
table1 = record table0 { seats = some (taken alice 200 0) ∷ none ∷ [] }

abbrev table2 : Table
table2 = record table0 { seats = some (taken alice 200 0) ∷ some (taken bob 100 1) ∷ [] }

first_sits : sit 0 alice 200 table0 empty_room ≡ sat 0 table1 one_in
unfolding sit sit_at mul32
first_sits = refl

second_sits : sit 1 bob 100 table1 one_in ≡ sat 1 table2 both_in
unfolding sit sit_at mul32
second_sits = refl

two_seated : Reached (table2, both_in)
two_seated =
    after (table1, one_in) (table2, both_in)
      (after (table0, empty_room) (table1, one_in) (made 5 config empty_room)
        (sits 0 alice 200 0 table0 table1 empty_room one_in refl first_sits))
      (sits 1 bob 100 1 table1 table2 one_in both_in refl second_sits)

Reached-IsOccupied_example : IsOccupied table2.seats both_in
Reached-IsOccupied_example = Reached-IsOccupied (table2, both_in) two_seated

abbrev played : List EngineEvent
played =
    hole_cards_dealt 0 (record { bits = 3 }, record { bits = 51 })
    ∷ hole_cards_dealt 1 (record { bits = 7 }, record { bits = 8 })
    ∷ action_taken 0 fold 3
    ∷ []

abbrev dealt : List EngineEvent
dealt = hand_started 1 0 99 ∷ played

abbrev outcome : HandResult
outcome = record {
  hand_id = 1;
  board = [];
  seats =
      record {
        seat = 0;
        hole_cards = some (record { bits = 3 }, record { bits = 51 });
        chip_delta = sub32 199 200;
        sat_out = false;
      }
      ∷ record {
        seat = 1;
        hole_cards = some (record { bits = 7 }, record { bits = 8 });
        chip_delta = sub32 101 100;
        sat_out = false;
      }
      ∷ [];
}

table_privacy_example :
    IsClean
      (fair (shown_by (0 ∷ 1 ∷ []) dealt) 1)
      1
      (on_events (dealt ++ (hand_ended 1 outcome ∷ [])) (new_sink 5 (0 ∷ 1 ∷ []), both_in)).1
unfolding take_running_snapshot playing_from
table_privacy_example =
    table_privacy table2 both_in dealt 1 outcome 1 1 two_seated refl refl (refl, refl)

first-IsSole : IsSole (0 ∷ 1 ∷ []) 0 0 0 both_in
first-IsSole zero l g e = refl
first-IsSole (suc zero) l g e =
    let there : l ≡ 1 = ground arith in
    let clash : some 1 ≡ some 0 = sym (ap (current both_in) there) ∙ e in absurd (ground arith)
first-IsSole (suc (suc n)) l g e = absurd (ground arith)

hand_privacy_example :
    IsClean
      (fair (shown_by (0 ∷ 1 ∷ []) dealt) 0)
      0
      (on_events (dealt ++ (hand_ended 1 outcome ∷ [])) (new_sink 5 (0 ∷ 1 ∷ []), both_in)).1
hand_privacy_example =
    hand_privacy 5 (0 ∷ 1 ∷ []) dealt 1 outcome 0 0 both_in refl first-IsSole (refl, refl)

replay_snapshot-on_events_example :
    (replay_snapshot 1 1 (on_events dealt (new_sink 5 (0 ∷ 1 ∷ []), both_in)).1
      ≡ some (events_at 5 (hand_started 1 0 99 ∷ seen_by 1 played)))
    × ((n : ℕ)
        → replay_snapshot n 1
            (on_event (hand_ended 1 outcome) (on_events dealt (new_sink 5 (0 ∷ 1 ∷ []), both_in))).1
          ≡ none)
replay_snapshot-on_events_example =
    replay_snapshot-on_events (new_sink 5 (0 ∷ 1 ∷ [])) played 1 0 99 1 1 outcome both_in refl
      (refl, (refl, tt)) refl refl

seated_client : ClientCore
unfolding handle_inbound
seated_client = (handle_inbound (ServerMessage.joined_table 5 1 []) (new_core none)).0

abbrev offer : LegalActions
offer = record {
  can_check = false;
  can_call = true;
  call_amount = 2;
  can_raise = false;
  min_raise = 0;
  max_raise = 0;
  all_in_amount = 98;
}

abbrev steps : List HandStep
steps =
    shown (hole_cards_dealt 0 (record { bits = 3 }, record { bits = 51 }))
    ∷ asked 1 offer 4
    ∷ submitted 1 5 1 call
    ∷ answered 1 4
    ∷ shown (action_taken 1 call 4)
    ∷ departed 1
    ∷ asked 1 offer 5
    ∷ []

abbrev begun : BroadcastSink × Store
begun = on_event (hand_started 1 0 99) (new_sink 5 (0 ∷ 1 ∷ []), both_in)

told_to_bob : told_by 1 30000 1 steps begun ≡ (
    ServerMessage.prompt 5 1 1 offer 30000
    ∷ ServerMessage.table_event 5 (action_taken 1 call 4)
    ∷ [])
unfolding told_by told hand_step ask_seat ask conclude_seat conclude deliver_action deliver_to
    respond cancel_pending on_event spread replay_push queued is_legal
told_to_bob = refl

replay_catches_up_example :
    let start = hand_started 1 0 99 in
    let messages = ServerMessage.table_event 5 start ∷ told_by 1 30000 1 steps begun in
    (replay_snapshot 1 1 (hand_steps 1 30000 steps begun).1 ≡ some messages)
    × ((handle_inbound
          (ServerMessage.replay_events 1 (to_messages messages))
          (handle_all ServerMessages.end seated_client).0).0
        ≡ (handle_all (to_messages messages) seated_client).0)
unfolding seated_client
replay_catches_up_example =
    replay_catches_up (new_sink 5 (0 ∷ 1 ∷ [])) steps 1 30000 0 99 1 1 both_in ServerMessages.end
      seated_client refl (refl, (refl, tt)) refl refl refl refl

abbrev prompt : PendingAction
prompt = record { table_id = 5; hand_id = 1; seat = 0; legal = offer; responder = 4 }

abbrev prompted : Store
prompted = record both_in {
  connections = record alice { pending = some prompt } ∷ bob ∷ new_connection 1 "alice" 11 ∷ [];
  waiting = 4 ∷ [];
}

deliver_action-once_example :
    let r = deliver_action 0 5 1 call prompted in
    ((r.1 ≡ true)
      × IsDelivered 0 5 1 call prompted r.0
      × ((t h : ℕ) (b : Action) → deliver_action 0 t h b r.0 ≡ (r.0, false)))
    ⊎ ((r.1 ≡ false) × (r.0.resolved ≡ prompted.resolved))
deliver_action-once_example = deliver_action-once 0 5 1 call prompted

take_over-moves_example :
    let v = take_over 2 0 0 table2 prompted in
    (current v 0 ≡ some 2)
    × (pending_of (get_elem? v.connections 0) ≡ none)
    × (pending_of (get_elem? v.connections 2) ≡ some prompt)
    × ((deliver_action 2 5 1 call v).1 ≡ true)
    × ((deliver_action 2 5 1 call v).0.resolved ≡ ((prompt.responder, call) ∷ prompted.resolved))
    × ((table_id hand_id : ℕ) (b : Action) → deliver_action 0 table_id hand_id b v ≡ (v, false))
unfolding is_legal
take_over-moves_example =
    take_over-moves 2 0 0 0 table2 prompted (new_connection 1 "alice" 11)
      (record alice { pending = some prompt }) (new_link 0) prompt call refl refl
      (λ e. absurd (ground arith)) refl refl refl refl refl

settle_table_seat_example :
    get_elem? (settle_table outcome table2).seats 1
    ≡ some (if false || 101 == 0 then none else some (record (taken bob 100 1) { stack = 101 }))
settle_table_seat_example =
    settle_table_seat outcome table2 1 101
      (record {
        seat = 1;
        hole_cards = some (record { bits = 7 }, record { bits = 8 });
        chip_delta = sub32 101 100;
        sat_out = false;
      })
      (taken bob 100 1) (((λ e. absurd (ground arith)), tt), (tt, tt)) refl refl refl (omega arith)
      (omega arith)

settle_table_button_example :
    (d : ℕ) × (d ≤ 0)
    × ((settle_table outcome table2).button ≡ (0 + (1 + d)) % 2)
    × (is_taken (settle_table outcome table2).seats (settle_table outcome table2).button ≡ true)
unfolding settle_table sub32
settle_table_button_example = settle_table_button outcome table2 0 (omega arith) refl

abbrev agent : RemoteAgent
agent = record { link = 0; table_id = 5; current_hand = 1; deadline = 30000 }

act-answered_example :
    let asked = ask agent 0 offer 9 both_in in
    let delivered = deliver_action 0 5 1 call asked.1 in
    (asked.0 ≡ true) × (delivered.1 ≡ true) × ((conclude agent 9 delivered.0).0 ≡ call)
unfolding is_legal
act-answered_example =
    act-answered agent 0 offer 9 0 (new_link 0) alice call both_in refl refl refl refl refl
