-- ===== src/Lib.antt =====
-- Verification of the poker workspace: the rules engine of a Texas Hold'em game, its server and its
-- client.
--
-- The program. `crates/poker-engine` holds the cards (`src/core`), the classes of starting hands
-- (`src/abstraction`), and the game (`src/game`): the state of one hand, legal actions and their
-- application (`engine.rs`), side pots (`pot_calc.rs`), showdown and awards (`engine.rs`), and a
-- stepper over one hand for solvers (`tree.rs`), which calls the engine's operations. The server
-- plays hands on the engine and sends its events, and prompts, to the clients (`src/net`);
-- `crates/poker-client-core` is the clients' state machine, from the host's intents and the
-- server's messages to a view and the effects that the host carries out.
--
-- The modules. `Base` has the shared names: tests on numbers, lists, 32-bit words. `Core/Card`,
-- `Core/Preflop` and `Core/Deck` are core/card.rs, abstraction/preflop.rs and core/deck.rs.
-- `Game/State`, `Game/Action` and `Game/Event` are the data of state.rs, rules.rs, action.rs and
-- event.rs, with the source's names of fields. `Game/Pots` is pot_calc.rs. `Game/Betting` is
-- normalize_action, compute_legal_actions and apply_action of engine.rs; `Game/Showdown` its
-- resolve_showdown and award_uncontested; `Game/Hand` its setting up of a hand and dealing of
-- streets. `Game/Tree` is tree.rs: `start` and `new_tree` are GameTree::new, `step` is
-- GameTree::apply_action and `advance` is GameTree::advance. The files below these prove what they
-- are named for. `Net/Protocol` is the messages of net/protocol.rs. `Client/View` and
-- `Client/Effect` are the data of view.rs, effect.rs and intent.rs; `Client/Core` is core.rs up to
-- `handle_intent`, `Client/Projection` its `project_engine_event` and `Client/Inbound` its
-- `handle_inbound`; `Client/Run` runs a client over a sequence of inputs. `Net/Names` is the
-- validators of net/protocol.rs, `Net/Frame` net/frame.rs and `Net/Wire`
-- crates/poker-server/src/wire.rs. `Stats` is the sink of crates/poker-engine/src/stats. The
-- server, crates/poker-server: `Server/Store` is connection.rs; of table.rs, `Server/Table` is who
-- sits down and leaves, `Server/Takeover` reconnect_player, `Server/Round` the game loop around a
-- hand, `Server/Sink` the BroadcastSink and `Server/Manager` the TableManager; `Server/Handshake`
-- and `Server/Session` are session.rs, the latter after the handshake; `Server/Agent` is
-- remote_agent.rs; `Server/Registry`, `Server/Entrance` and `Server/Records` are registry.rs.
-- `Server/Reach` has the steps that a table and the store may take. `Tests` evaluates the model and
-- applies the theorems at concrete inputs.
--
-- How it is modelled. A mutable state is passed and returned. An `Option` result is `none` where
-- the code panics or where a byte is no rank. `u32` arithmetic wraps modulo 2 ^ 32 (`add32`,
-- `sub32`, `mul32`), as in a release build, where debug assertions are off; theorems that need the
-- true values assume that the chips fit. `usize` seats and counts are unbounded, since a table is
-- small. The `i64` payouts are only ever increased by `u32` amounts, so they are numbers. An event
-- sink is the list of the events that it is given. Loops over ranges recur on the rounds left,
-- which the code's own ranges give, so there is no fuel. `Game/Tree/Nodes` says what a node of the
-- tree keeps: the books of `Game/Betting/Ledger`, the players of `Game/Betting/Live`, and the cards
-- for the board.
--
-- What the server shares (`Arc`) stands in a store, and is named by its place there: connections,
-- seat links, flags. A queue is its content, a channel that waits for an action is a name, and
-- locks, wake-ups and timers are the order of the steps. The database's tables are lists of rows,
-- and a transaction that fails gives nothing back. `Server/Sink/Steps` is a hand at a table as a
-- list of steps: its events, the prompts of its agents, and what the connections do in between. The
-- theorems of `Server/Sink/Replay` and on hole cards are about its events alone.
--
-- Parameters. The generator of the crate `rand` is a state with `gen_range` in its documented
-- range; the hand evaluator is a function from seven cards to a number, of which only the order is
-- used. The codec `rmp_serde` is a pair of functions, of which one undoes the other. The password
-- hash, random salts and keys, the time and `format!` of a number are arguments.
--
-- Not modelled: the evaluator, the hand loop with agents, the token bucket (it counts in floating
-- point; its answer is an argument) and the solver. Of the client's log lines the structured fields
-- are left out. Printing, files, sockets and command lines are input and output.
pub mod Base
pub mod Core
pub mod Game
pub mod Net
pub mod Client
pub mod Stats
pub mod Server
pub mod Tests
