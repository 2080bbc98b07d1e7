-- ===== src/Game/Tree/Advance.antt =====
-- tree.rs: what `advance` makes of the hand after an action.
use vibe_poker.Base.{
  ℕ, suc, ◌+◌, ◌≤◌, ◌<◌, ◌≡◌, refl, ◌∙◌, ap, Bool, true, false, List, [], ◌∷◌, map, none, some,
  ◌>>=◌, arith, get_elem?, get_elem?-lt, length, count_if, Bool-cases, Option-cases, inl, inr, All,
  ◌==◌,
}
use vibe_poker.Core.Deck.{Deck}
use vibe_poker.Game.State.{
  PlayerState, GameState, Street, preflop, flop, turn, river, showdown, is_active, is_in,
  players_still_in,
}
use vibe_poker.Game.Pots.{collect_street_bets}
use vibe_poker.Game.Betting.Ledger.{Ledger, chips}
use vibe_poker.Game.Betting.Live.{Live}
use vibe_poker.Game.Showdown.Uncontested.{collect_street_bets-Ledger, award_uncontested_conserves}
use vibe_poker.Game.Tree.{
  Engine, GameTree, terminal, ask, run_streets, next_streets, next_to_act, must_act, advance,
  uncontested,
}
use vibe_poker.Game.Tree.Seats.{position_from-found, next_to_act-found, next_to_act-all}
use vibe_poker.Game.Tree.Nodes.{left, cards_of, Ordered, Dealable, Leads, IsNode}
use vibe_poker.Game.Tree.Streets.{run_streets-Leads}

-- The hand after an action, while at least one player is left.
pub record Acting (bound total : ℕ) (s : GameState) : Type 0 where
  pub books : Ledger s.players s.pot
  pub lives : All (Live s.current_bet) s.players
  pub kept : chips s.players ≡ total
  pub present : 1 ≤ count_if is_in s.players
  pub bet_bound : s.current_bet ≤ bound
  pub increment_bound : s.min_raise_increment ≤ bound
  pub increment_pos : 0 < s.min_raise_increment

must_act-active :
    (s : GameState) (hr : List Bool) (seat : ℕ)
    → must_act s hr seat ≡ true
    → (p : PlayerState) × (get_elem? s.players seat ≡ some p) × (is_active p.status ≡ true)
must_act-active s hr seat h = elim (Option-cases (get_elem? s.players seat)) [
  | inl e ↦ absurd (ground arith)
  | inr (p, e) ↦ (p, e, ground arith)
]

must_act-matched :
    (s : GameState) (hr : List Bool) (seat : ℕ) (p : PlayerState)
    → get_elem? s.players seat ≡ some p
    → must_act s hr seat ≡ false
    → is_active p.status ≡ true
    → p.bet_this_street ≡ s.current_bet
must_act-matched s hr seat p g h a = ground arith

cards_of-next_streets : (st : Street) → cards_of (next_streets st) ≡ left st
cards_of-next_streets preflop = refl
cards_of-next_streets flop = refl
cards_of-next_streets turn = refl
cards_of-next_streets river = refl
cards_of-next_streets showdown = refl

-- The players of a round that is over, with their bets collected.
All-collected :
    (b : ℕ) (ps : List PlayerState)
    → All (Live b) ps
    → ((i : ℕ) (p : PlayerState)
        → get_elem? ps i ≡ some p
        → is_active p.status ≡ true
        → p.bet_this_street ≡ b)
    → All (Live 0) (map (λ (p : PlayerState). record p { bet_this_street = 0 }) ps)
All-collected b [] a settled = tt
All-collected b (p ∷ ps) (l, a) settled = (
  record {
    matched = omega arith;
    stocked = l.stocked;
    owing = λ h. omega (arith, l.owing h, settled 0 p refl h);
    staked = l.staked;
    dealt = l.dealt;
    outside = l.outside;
  },
  All-collected b ps a (λ i q g. settled (suc i) q g),
)

count-cleared :
    (ps : List PlayerState)
    → count_if is_in (map (λ (p : PlayerState). record p { bet_this_street = 0 }) ps)
      ≡ count_if is_in ps
count-cleared [] = refl
count-cleared (p ∷ ps) = omega (arith, count-cleared ps)

Ordered-next_streets : (st : Street) → Ordered (next_streets st)
Ordered-next_streets preflop = (refl, (refl, (refl, tt)))
Ordered-next_streets flop = (refl, (refl, tt))
Ordered-next_streets turn = (refl, tt)
Ordered-next_streets river = tt
Ordered-next_streets showdown = tt

-- The hand ends with one player left.
pub uncontested-IsNode :
    (bound total : ℕ) (s : GameState) (d : Deck)
    → Acting bound total s
    → (t : GameTree) × (uncontested s d ≡ some t) × IsNode bound total t
unfolding uncontested
uncontested-IsNode bound total s d a =
    let (k, p, f, g, _) = position_from-found 0 is_in s.players a.present in
    let first : (0 + k) ≡ k = omega arith in
    let (t, deltas, done, _, _, all_chips) = award_uncontested_conserves s k p a.books g in
    (
      record { state = record t { action_on = none }; deck = d; phase = terminal deltas },
      rw (f ∙ ap some first) (rw done refl),
      all_chips ∙ a.kept,
    )

module _ (engine : Engine) (bound total : ℕ) (small : total ≤ bound)
    (blind : engine.rules.big_blind ≤ bound) (blind_pos : 0 < engine.rules.big_blind) where
  left_alone :
      (s : GameState) (d : Deck)
      → Acting bound total s
      → Leads bound total (do tree ← uncontested s d; some (tree, []))
  left_alone s d a =
      let (t, ends, node) = uncontested-IsNode bound total s d a in (t, [], rw ends refl, node)

  -- The betting of the street is over.
  round_over :
      (s : GameState) (d : Deck) (seat : ℕ) (marked : List Bool)
      → Acting bound total s
      → 2 ≤ count_if is_in s.players
      → Dealable (length s.board) d (left s.street)
      → seat < length s.players
      → next_to_act s marked seat (length s.players) 1 ≡ none
      → let c = collect_street_bets s.players s.pot in
        Leads bound total (
          run_streets engine
            (next_streets s.street)
            (record s { players = c.0; pot = c.1; action_on = none })
            d)
  unfolding collect_street_bets
  round_over s d seat marked a many f inside h =
      let (books, kept, _, _) = collect_street_bets-Ledger s.players s.pot a.books in
      let settled =
        λ (i : ℕ) (p : PlayerState) (g : get_elem? s.players i ≡ some p)
            (on : is_active p.status ≡ true).
          must_act-matched s marked i p g
            (next_to_act-all s marked seat i inside (get_elem?-lt s.players i g) h) on in
      run_streets-Leads engine bound total small blind blind_pos (next_streets s.street) _ d
        (Ordered-next_streets s.street)
        (record {
          books = books;
          lives = All-collected s.current_bet s.players a.lives settled;
          kept = kept ∙ a.kept;
          contested = omega (arith, many, count-cleared s.players);
        })
        (rw (cards_of-next_streets s.street) f)

  pub advance-Leads :
      (s : GameState) (d : Deck) (seat : ℕ) (marked : List Bool)
      → Acting bound total s
      → Dealable (length s.board) d (left s.street)
      → length marked ≡ length s.players
      → seat < length s.players
      → Leads bound total (advance engine s d seat marked)
  unfolding advance
  advance-Leads s d seat marked a f answers inside = elim (Bool-cases (players_still_in s == 1)) [
    | inl e ↦ rw e (left_alone s d a)
    | inr e ↦ elim (Option-cases (next_to_act s marked seat (length s.players) 1)) [
      | inl h ↦ rw e (rw h (round_over s d seat marked a (ground (arith, a.present)) f inside h))
      | inr (next, h) ↦
          (let (p, seated, active) =
              must_act-active s marked next
                (next_to_act-found s marked seat (length s.players) 1 next h) in
            (
              ask s d next marked,
              [],
              rw e (rw h refl),
              record {
                sound = record {
                  books = a.books;
                  lives = a.lives;
                  kept = a.kept;
                  contested = ground (arith, a.present);
                  chips_bound = small;
                  bet_bound = a.bet_bound;
                  increment_bound = a.increment_bound;
                  increment_pos = a.increment_pos;
                };
                dealable = f;
                answers = answers;
                player = p;
                seated = seated;
                active = active;
              },
            ))
    ]
  ]
