-- ===== src/Game/Hand.antt =====
-- crates/poker-engine/src/game/engine.rs: setting a hand up, and dealing its streets. `none` is a
-- panic; the events of a call are returned in the order in which the sink gets them.
pub mod Seats
pub mod Blinds
pub mod Deals
use vibe_poker.Base.{
  ℕ, zero, suc, ◌+◌, ◌-◌, ◌%◌, min, Bool, true, false, List, [], ◌∷◌, ◌++◌, map, Option, none, some,
  ◌>>=◌, get_elem?, set, length, replicate, count_if, ltb, leb, if◌then◌else◌,
}
use vibe_poker.Core.Deck.{Deck, deal, deal_many}
use vibe_poker.Game.State.{
  PlayerState, PlayerStatus, GameState, Street, flop, turn, river, preflop, BettingRules, SeatKind,
  live, dead_hand, is_active, is_out, is_in,
}
use vibe_poker.Game.Event.{EngineEvent, hole_cards_dealt, board_dealt}
use vibe_poker.Game.Betting.{pay, settle, put}

-- `(from + i) % n` is a seat of the table, so the read never panics.
abbrev pub seat_passes : (PlayerState → Bool) → List PlayerState → ℕ → Bool
seat_passes test players seat = elim (get_elem? players seat) [ none ↦ false | some p ↦ test p ]

-- `for i in 1..=limit`: the first seat after `from`, going round, that passes. `rounds` are left.
unfoldable pub first_after : (PlayerState → Bool) → List PlayerState → ℕ → (rounds i : ℕ) → Option ℕ
first_after test players from zero i = none
first_after test players from (suc rounds) i =
    let seat = (from + i) % length players in
    let rest = first_after test players from rounds (i + 1) in
    if seat_passes test players seat then some seat else rest

unfoldable pub next_active_after : ℕ → List PlayerState → Option ℕ
unfolding first_after
next_active_after from players =
    first_after (λ (p : PlayerState). is_active p.status) players from (length players) 1

unfoldable pub next_active_after_in_list : ℕ → List PlayerState → ℕ → Option ℕ
unfolding first_after
next_active_after_in_list from players limit = first_after is_in players from limit 1

abbrev pub unwrap_or {ℓ} : {A : Type ℓ} → Option A → A → A
unwrap_or none d = d
unwrap_or (some a) d = a

unfoldable pub sb_seat : GameState → ℕ
unfolding next_active_after_in_list
sb_seat s = unwrap_or (next_active_after_in_list s.dealer s.players (length s.players)) s.dealer

unfoldable pub bb_seat : GameState → ℕ
unfolding sb_seat
bb_seat s =
    unwrap_or (next_active_after_in_list (sb_seat s) s.players (length s.players)) (sb_seat s)

abbrev pub active_count : List PlayerState → ℕ
active_count = count_if (λ (p : PlayerState). is_active p.status)

abbrev pub new_player : ℕ → PlayerState
new_player stack = record {
  stack = stack;
  hole_cards = none;
  bet_this_street = 0;
  total_committed = 0;
  status = if ltb 0 stack then PlayerStatus.active else PlayerStatus.out;
}

unfoldable pub init_state : BettingRules → ℕ → List ℕ → ℕ → GameState
init_state rules hand_id stacks dealer = record {
  hand_id = hand_id;
  street = preflop;
  board = [];
  players = map new_player stacks;
  pot = record { main = 0; side = [] };
  action_on = none;
  dealer = dealer;
  last_aggressor = none;
  current_bet = 0;
  min_raise_increment = rules.big_blind;
  cumulative_short_increment = 0;
  sat_out = replicate (length stacks) false;
}

-- Post `amount`, or what the stack holds of it.
unfoldable pub post_amount : ℕ → ℕ → PlayerState → PlayerState × List EngineEvent
unfolding pay settle
post_amount seat amount p = settle seat (pay p (min amount p.stack))

-- The loop of `Engine::post_antes`, from the seat `i` on.
unfoldable pub antes_from : ℕ → ℕ → List PlayerState → List PlayerState × List EngineEvent
unfolding post_amount
antes_from ante i [] = ([], [])
antes_from ante i (p ∷ ps) =
    let (q, es) = if is_active p.status then post_amount i ante p else (p, []) in
    let (qs, fs) = antes_from ante (i + 1) ps in (q ∷ qs, es ++ fs)

unfoldable pub post_antes : BettingRules → GameState → GameState × List EngineEvent
unfolding antes_from
post_antes rules s =
    let (players, events) = antes_from rules.ante 0 s.players in
    (record s { players = players }, events)

-- The closure `post` of `Engine::post_blinds`.
unfoldable pub post : GameState → ℕ → ℕ → Option (GameState × List EngineEvent)
unfolding post_amount
post s seat amount = do
  p ← get_elem? s.players seat
  let posted = post_amount seat amount p
  some (put s seat posted.0, posted.1)

unfoldable pub post_blinds : BettingRules → GameState → Option (GameState × List EngineEvent)
unfolding post bb_seat
post_blinds rules s = do
  (s1, es) ← post s (sb_seat s) rules.small_blind
  (s2, fs) ← post s1 (bb_seat s) rules.big_blind
  some
      (record s2 { current_bet = rules.big_blind; min_raise_increment = rules.big_blind }, es ++ fs)

-- The loop of `Engine::deal_hole_cards`, from the seat `i` on.
unfoldable pub deal_hole_from :
    ℕ → List PlayerState → Deck → Option (List PlayerState × Deck × List EngineEvent)
unfolding deal
deal_hole_from i [] deck = some ([], deck, [])
deal_hole_from i (p ∷ ps) deck = elim (is_in p) [
  | true ↦ (do
    (c, deck1) ← deal deck
    (d, deck2) ← deal deck1
    (qs, deck3, es) ← deal_hole_from (i + 1) ps deck2
    some (record p { hole_cards = some (c, d) } ∷ qs, deck3, hole_cards_dealt i (c, d) ∷ es))
  | false ↦ (do (qs, deck3, es) ← deal_hole_from (i + 1) ps deck; some (p ∷ qs, deck3, es))
]

unfoldable pub deal_hole_cards : GameState → Deck → Option (GameState × Deck × List EngineEvent)
unfolding deal_hole_from
deal_hole_cards s deck = do
  (players, deck', events) ← deal_hole_from 0 s.players deck
  some (record s { players = players }, deck', events)

-- The loop of `run_hand` over the seat kinds, from the seat `i` on.
unfoldable pub mark_dead : ℕ → List SeatKind → GameState → Option GameState
mark_dead i [] s = some s
mark_dead i (live ∷ kinds) s = mark_dead (i + 1) kinds s
mark_dead i (dead_hand ∷ kinds) s = do
  p ← get_elem? s.players i
  marked ←
      (if is_out p.status then some s else (do
        _ ← get_elem? s.sat_out i
        some (record (put s i (record p { status = PlayerStatus.folded })) {
          sat_out = set s.sat_out i true;
        })))
  mark_dead (i + 1) kinds marked

unfoldable pub begin_street : BettingRules → GameState → Street → GameState
begin_street rules s street = record s {
  street = street;
  current_bet = 0;
  min_raise_increment = rules.big_blind;
  cumulative_short_increment = 0;
  last_aggressor = none;
  players = map (λ (p : PlayerState). record p { bet_this_street = 0 }) s.players;
}

unfoldable pub deal_board_cards :
    GameState → Deck → ℕ → Street → Option (GameState × Deck × List EngineEvent)
unfolding deal_many
deal_board_cards s deck n street = do
  (cards, deck') ← deal_many n deck
  some (record s { board = s.board ++ cards }, deck', board_dealt street cards ∷ [])

-- The condition of `Engine::deal_remaining_board` under which a street is dealt: the board is short
-- of what it holds after that street. (`n + (5 - (n_per of this street and of the later ones))`.)
abbrev filled_after : Street → ℕ
filled_after flop = 3 + (5 - 5)
filled_after turn = 1 + (5 - 2)
filled_after river = 1 + (5 - 1)
filled_after _ = 0

-- The loop of `deal_remaining_board`, with the count of cards on the board.
unfoldable pub run_out_from :
    List (Street × ℕ) → ℕ → GameState → Deck → Option (GameState × Deck × List EngineEvent)
unfolding deal_board_cards
run_out_from [] dealt s deck = some (s, deck, [])
run_out_from ((street, n) ∷ rest) dealt s deck = elim (leb 5 dealt) [
  | true ↦ some (s, deck, [])
  | false ↦ elim (ltb dealt (filled_after street)) [
    | true ↦ (do
      let to_deal = min n (5 - dealt)
      (s1, deck1, es) ← deal_board_cards s deck to_deal street
      (s2, deck2, fs) ← run_out_from rest (dealt + to_deal) s1 deck1
      some (s2, deck2, es ++ fs))
    | false ↦ run_out_from rest dealt s deck
  ]
]

-- `Engine::deal_remaining_board`, with the fallback that fills the board and emits no event.
unfoldable pub deal_remaining_board :
    GameState → Deck → Option (GameState × Deck × List EngineEvent)
unfolding run_out_from
deal_remaining_board s deck = if leb 5 (length s.board) then some (s, deck, []) else (do
  (s1, deck1, es) ← run_out_from ((flop, 3) ∷ (turn, 1) ∷ (river, 1) ∷ []) (length s.board) s deck
  (cards, deck2) ← deal_many (5 - length s1.board) deck1
  some (record s1 { board = s1.board ++ cards }, deck2, es))
