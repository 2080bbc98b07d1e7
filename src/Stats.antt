-- ===== src/Stats.antt =====
-- crates/poker-engine/src/stats/mod.rs: statistics of the seats, counted from the events of hands.
pub mod Counters
use vibe_poker.Base.{
  ℕ, zero, suc, ◌+◌, ◌-◌, ◌%◌, ◌^◌, Bool, true, false, List, [], ◌∷◌, ◌++◌, map, replicate, update,
  length, ltb, leb, Option, none, some, get_elem?, ◌==◌, ◌&&◌, if◌then◌else◌, not,
}
use vibe_poker.Game.Action.{Action, fold, check, call, raise, all_in}
use vibe_poker.Game.State.{Street, preflop}
use vibe_poker.Game.Event.{
  EngineEvent, SeatOutcome, HandResult, hand_started, hole_cards_dealt, board_dealt, action_taken,
  player_all_in, hand_ended,
}

abbrev pub u64 : ℕ
u64 = 2 ^ 64

-- Counters are 64-bit; `chip_delta_total : i64` is its bit pattern.
pub record SeatStats : Type 0 where
  pub hands_dealt : ℕ
  pub hands_won : ℕ
  pub chip_delta_total : ℕ
  pub vpip_hands : ℕ
  pub pfr_hands : ℕ
  pub aggressive_actions : ℕ
  pub passive_actions : ℕ
  pub total_pot : ℕ

abbrev pub no_hands : SeatStats
no_hands = record {
  hands_dealt = 0;
  hands_won = 0;
  chip_delta_total = 0;
  vpip_hands = 0;
  pfr_hands = 0;
  aggressive_actions = 0;
  passive_actions = 0;
  total_pot = 0;
}

pub record StatsSink : Type 0 where
  pub seats : List SeatStats
  pub current_street : Street
  pub vpip_this_hand : List Bool
  pub pfr_this_hand : List Bool

-- `StatsSink::new`
abbrev pub new_stats : ℕ → StatsSink
new_stats n_seats = record {
  seats = replicate n_seats no_hands;
  current_street = preflop;
  vpip_this_hand = replicate n_seats false;
  pfr_this_hand = replicate n_seats false;
}

-- `StatsSink::hands_played`
abbrev pub hands_played : StatsSink → ℕ
hands_played k = elim k.seats [ [] ↦ 0 | s ∷ seats ↦ s.hands_dealt ]

abbrev pub is_preflop : Street → Bool
is_preflop preflop = true
is_preflop _ = false

-- A flag of a seat is set, if it is before the flop.
abbrev pub flagged : Street → ℕ → List Bool → List Bool
flagged street seat flags = if is_preflop street then update (λ _. true) flags seat else flags

abbrev pub bump : ℕ → ℕ
bump n = (n + 1) % u64

abbrev pub aggressive : ℕ → StatsSink → StatsSink
aggressive seat k = record k {
  seats = update (λ s. record s { aggressive_actions = bump s.aggressive_actions }) k.seats seat;
  vpip_this_hand = flagged k.current_street seat k.vpip_this_hand;
  pfr_this_hand = flagged k.current_street seat k.pfr_this_hand;
}

abbrev pub passive : ℕ → StatsSink → StatsSink
passive seat k = record k {
  seats = update (λ s. record s { passive_actions = bump s.passive_actions }) k.seats seat;
  vpip_this_hand = flagged k.current_street seat k.vpip_this_hand;
}

-- An action of a seat of the table.
abbrev pub acted : ℕ → Action → StatsSink → StatsSink
acted seat (raise total) k = aggressive seat k
acted seat all_in k = aggressive seat k
acted seat call k = passive seat k
acted seat fold k = k
acted seat check k = k

-- Is the `i32` positive?
abbrev pub is_gain : ℕ → Bool
is_gain delta = leb 1 delta && ltb delta (2 ^ 31)

abbrev pub pot_of : List SeatOutcome → ℕ
pot_of [] = 0
pot_of (o ∷ os) =
    let rest = pot_of os in if is_gain o.chip_delta then (o.chip_delta + rest) % u64 else rest

-- An `i32` as an `i64`.
abbrev pub widened : ℕ → ℕ
widened delta = if ltb delta (2 ^ 31) then delta else delta + (u64 - 2 ^ 32)

-- A seat's counters after an outcome, given its flags.
unfoldable pub tallied : (pot delta : ℕ) → (vpip pfr : Bool) → SeatStats → SeatStats
tallied pot delta vpip pfr s = record s {
  hands_dealt = bump s.hands_dealt;
  chip_delta_total = (s.chip_delta_total + widened delta) % u64;
  hands_won = if is_gain delta then bump s.hands_won else s.hands_won;
  vpip_hands = if vpip then bump s.vpip_hands else s.vpip_hands;
  pfr_hands = if pfr then bump s.pfr_hands else s.pfr_hands;
  total_pot = (s.total_pot + pot) % u64;
}

abbrev pub flag_at : List Bool → ℕ → Bool
flag_at [] i = false
flag_at (b ∷ bs) zero = b
flag_at (b ∷ bs) (suc i) = flag_at bs i

unfoldable pub counted : ℕ → SeatOutcome → StatsSink → StatsSink
unfolding tallied
counted pot o k = if o.sat_out then k else record k {
  seats =
      update
        (tallied pot o.chip_delta (flag_at k.vpip_this_hand o.seat)
          (flag_at k.pfr_this_hand o.seat))
        k.seats o.seat;
}

-- The loop over the outcomes of a hand.
unfoldable pub tally : ℕ → List SeatOutcome → StatsSink → StatsSink
unfolding counted
tally pot [] k = k
tally pot (o ∷ os) k = tally pot os (counted pot o k)

-- `StatsSink::on_event`
unfoldable pub count_event : EngineEvent → StatsSink → StatsSink
unfolding tally
count_event (hand_started hand_id dealer deck_seed) k = record k {
  current_street = preflop;
  vpip_this_hand = map (λ _. false) k.vpip_this_hand;
  pfr_this_hand = map (λ _. false) k.pfr_this_hand;
}
count_event (hole_cards_dealt seat cards) k = k
count_event (board_dealt street cards) k = record k { current_street = street }
count_event (action_taken seat action pot_total) k =
    if ltb seat (length k.seats) then acted seat action k else k
count_event (hand_ended hand_id result) k = tally (pot_of result.seats) result.seats k
count_event (player_all_in seat total_committed) k = k

unfoldable pub count_events : List EngineEvent → StatsSink → StatsSink
unfolding count_event
count_events [] k = k
count_events (e ∷ es) k = count_events es (count_event e k)
