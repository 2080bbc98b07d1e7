-- ===== src/Client/Inbound.antt =====
-- crates/poker-client-core/src/core.rs: `handle_inbound`, the client's reaction to each message of
-- the server. A replay feeds its messages through the same handler.
use vibe_poker.Base.{true, [], ◌∷◌, ◌++◌, Option, none, some, if◌then◌else◌}
use vibe_poker.Net.Protocol.{ServerMessage, ServerMessages}
use vibe_poker.Client.View.{lobby, seated, ended, CurrentHand}
use vibe_poker.Client.Effect.{close_connection, persist_session_key, log, debug, info, warn}
use vibe_poker.Client.Core.{ActivePrompt, ClientCore, Handled, map_hand, on_hand, reset_to_ended}
use vibe_poker.Client.Projection.{is_at, project_engine_event}

-- `ActionRejected` offers the prompt again.
abbrev pub rearmed : Option ActivePrompt → Option CurrentHand → Option CurrentHand
rearmed none = λ h. h
rearmed (some p) = map_hand (λ h. record h { awaiting_action = true; legal_actions = some p.legal })

unfoldable pub rearm : ClientCore → ClientCore
rearm c = record c {
  view = record (c.view) { current_hand = rearmed c.active_prompt c.view.current_hand };
}

unfoldable mutual
  unfolding reset_to_ended rearm project_engine_event

  pub handle_inbound : ServerMessage → ClientCore → Handled
  handle_inbound (ServerMessage.welcome version player_id username session_key stats) c = (
    record c {
      view = record (c.view) {
        phase = lobby;
        player_id = some player_id;
        username = some username;
        lifetime_stats = some stats;
      };
      session_key = some session_key;
    },
    persist_session_key (some session_key) ∷ log info "core: welcomed" ∷ [],
  )
  handle_inbound (ServerMessage.rejected version reason) c = (
    record c { view = record (c.view) { phase = ended reason } },
    close_connection ∷ log warn "core: handshake rejected" ∷ [],
  )
  handle_inbound (ServerMessage.goodbye reason) c =
      (reset_to_ended reason c, close_connection ∷ log info "core: goodbye" ∷ [])
  handle_inbound ServerMessage.heartbeat c = (c, [])
  handle_inbound (ServerMessage.table_list tables) c = (
    record c { view = record (c.view) { tables = tables } },
    log debug "core: table list updated" ∷ [],
  )
  handle_inbound (ServerMessage.joined_table table_id seat seats) c = (
    record c {
      view = record (c.view) {
        phase = seated table_id seat;
        seats = seats;
        button = none;
        current_hand = none;
        last_action_rejection = none;
      };
      active_prompt = none;
    },
    log info "core: seated" ∷ [],
  )
  handle_inbound (ServerMessage.left_table table_id) c = (
    record c {
      view = record (c.view) { phase = lobby; seats = []; button = none; current_hand = none };
      active_prompt = none;
    },
    log info "core: left table" ∷ [],
  )
  handle_inbound (ServerMessage.table_state table_id seats button) c =
      if is_at table_id c.view.phase
      then (
        record c { view = record (c.view) { seats = seats; button = some button } },
        log debug "core: table state updated" ∷ [],
      )
      else (c, log warn "core: TableState for non-current table; ignoring" ∷ [])
  handle_inbound (ServerMessage.table_event table_id event) c =
      project_engine_event table_id event c
  handle_inbound (ServerMessage.prompt table_id hand_id seat legal deadline_ms) c =
      let asked =
        on_hand
          (λ h. record h {
            awaiting_action = true;
            legal_actions = some legal;
            action_deadline_ms = some deadline_ms;
          })
          c in
      (
        record asked {
          view = record (asked.view) { last_action_rejection = none };
          active_prompt =
              some (record { table_id = table_id; hand_id = hand_id; seat = seat; legal = legal });
        },
        log info "core: prompt received" ∷ [],
      )
  handle_inbound (ServerMessage.action_rejected reason) c =
      let armed = rearm c in
      (
        record armed { view = record (armed.view) { last_action_rejection = some reason } },
        log warn "core: action rejected" ∷ [],
      )
  handle_inbound (ServerMessage.replay_events hand_id events) c =
      let replayed = handle_all events c in
      (
        replayed.0,
        log info "core: replay begin" ∷ (replayed.1 ++ (log info "core: replay end" ∷ [])),
      )

  -- The loop over the messages of a replay.
  pub handle_all : ServerMessages → ClientCore → Handled
  handle_all ServerMessages.end c = (c, [])
  handle_all (ServerMessages.next msg rest) c =
      let (c1, es) = handle_inbound msg c in let (c2, fs) = handle_all rest c1 in (c2, es ++ fs)
