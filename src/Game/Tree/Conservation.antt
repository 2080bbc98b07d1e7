-- ===== src/Game/Tree/Conservation.antt =====
-- tree.rs: a step from a decision goes through, and keeps the chips of the hand.
use vibe_poker.Base.{
  ℕ, suc, ◌+◌, ◌≤◌, ◌<◌, ◌≡◌, refl, ◌∙◌, ap, Bool, true, false, List, [], ◌∷◌, ◌++◌, some, arith,
  get_elem?-lt, get_elem?_total, set, length, length-set, All, All-get, All-set, le-sum_of, u32_mod,
}
use vibe_poker.Core.Deck.{Deck}
use vibe_poker.Game.State.{PlayerState, GameState, is_in}
use vibe_poker.Game.Action.{Action}
use vibe_poker.Game.Betting.Ledger.{chips, wealth, Trade-Ledger}
use vibe_poker.Game.Betting.Live.{Live, Live-grows}
use vibe_poker.Game.Betting.Acted.{submit-Acted}
use vibe_poker.Game.Betting.{Applied, normalize_action, apply_action}
use vibe_poker.Game.Betting.Raises.{Fits}
use vibe_poker.Game.Tree.{Engine, decision, GameTree, keep_only, mark_responded, step}
use vibe_poker.Game.Tree.Seats.{count_if-set}
use vibe_poker.Game.Tree.Nodes.{Asked, Leads}
use vibe_poker.Game.Tree.Advance.{Acting, advance-Leads}

All-grows : (b c : ℕ) (ps : List PlayerState) → b ≤ c → All (Live b) ps → All (Live c) ps
All-grows b c [] h a = tt
All-grows b c (p ∷ ps) h (l, a) = (Live-grows b c p h l, All-grows b c ps h a)

length-keep_only : (i seat : ℕ) (bs : List Bool) → length (keep_only i seat bs) ≡ length bs
length-keep_only i seat [] = refl
length-keep_only i seat (b ∷ bs) = ap suc (length-keep_only (i + 1) seat bs)

mark_responded_total :
    (hr : List Bool) (seat : ℕ) (aggression : Bool)
    → seat < length hr
    → (marked : List Bool) × (mark_responded hr seat aggression ≡ some marked)
      × (length marked ≡ length hr)
mark_responded_total hr seat true h =
    let (b, g) = get_elem?_total hr seat h in
    (
      keep_only 0 seat (set hr seat true),
      rw g refl,
      length-keep_only 0 seat (set hr seat true) ∙ length-set hr seat true,
    )
mark_responded_total hr seat false h =
    let (b, g) = get_elem?_total hr seat h in (set hr seat true, rw g refl, length-set hr seat true)

-- The action that a decision takes, whatever is submitted.
acted :
    (bound total : ℕ) (s : GameState) (d : Deck) (seat : ℕ) (hr : List Bool) (a : Action)
    → bound + bound < u32_mod
    → Asked bound total seat hr s d
    → (n : Action) × (r : Applied) × (normalize_action s seat a ≡ some n)
      × (apply_action s seat n ≡ some r)
      × Acting bound total r.state
      × (r.state.board ≡ s.board)
      × (r.state.street ≡ s.street)
      × (length r.state.players ≡ length s.players)
acted bound total s d seat hr a room q =
    let o = q.sound in
    let p = q.player in
    let mine : wealth p ≤ chips s.players = le-sum_of wealth s.players seat p q.seated in
    let covered =
      All-get (λ (x : PlayerState). x.bet_this_street ≤ x.total_committed) s.players seat p
        o.books.within q.seated in
    let fits : Fits s p = record {
      player_fits = omega (arith, mine, covered, o.books.bounded);
      bet_fits = omega (arith, room, o.bet_bound, o.increment_bound);
    } in
    let (n, r, e, h, t) =
      submit-Acted bound s seat p fits
        (All-get (Live s.current_bet) s.players seat p o.lives q.seated) q.active
        (omega (arith, mine, o.books.bounded)) o.increment_pos covered
        (omega (arith, mine, o.kept, o.chips_bound)) o.bet_bound o.increment_bound a q.seated in
    let (books, same_chips) =
      Trade-Ledger s.players s.pot seat p t.after q.seated t.trade o.books in
    (
      n,
      r,
      e,
      h,
      record {
        books = rw (t.written, t.pot_kept) books;
        lives = rw t.written (
            All-set (Live r.state.current_bet) s.players seat t.after
              (All-grows s.current_bet r.state.current_bet s.players t.grows.bet_grows o.lives)
              t.live);
        kept = rw t.written (same_chips ∙ o.kept);
        present =
            rw t.written (omega (arith, count_if-set is_in s.players seat t.after, o.contested));
        bet_bound = t.bet_bound;
        increment_bound = t.increment_bound;
        increment_pos = omega (arith, o.increment_pos, t.grows.increment_grows);
      },
      t.board_kept,
      t.street_kept,
      rw t.written (length-set s.players seat t.after),
    )

-- From a decision, whatever is submitted, the step goes through without a panic. It leads to
-- another decision of the same kind, with the same chips, or to the end of the hand, where the
-- stacks hold all the chips. The decision is one of a player who may act, where two players or more
-- are in the hand; the pot and the bets of the street are the players' stakes; nobody's bet is
-- above the bet to match (so that no ante counts as a bet of the street); a player in the hand has
-- cards, and chips at stake or still owes the bet, and one who may act has a stack; who is out has
-- nothing at stake; no street's bet is above its player's stake, and there are no side pots yet;
-- and the deck has the cards for the rest of the board. It is assumed that the chips, the bet, the
-- increment and the big blind are within a bound of which twice fits a `u32`, and that the
-- increment and the big blind are positive.
pub step_conserves :
    (engine : Engine) (bound total : ℕ) (t : GameTree) (seat : ℕ) (hr : List Bool) (a : Action)
    → bound + bound < u32_mod
    → engine.rules.big_blind ≤ bound
    → 0 < engine.rules.big_blind
    → t.phase ≡ decision seat hr
    → Asked bound total seat hr t.state t.deck
    → Leads bound total (step engine t a)
unfolding step
step_conserves engine bound total t seat hr a room blind blind_pos at q =
    let s = t.state in
    let (n, r, e, h, acting, board, street, count) = acted bound total s t.deck seat hr a room q in
    let inside = get_elem?-lt s.players seat q.seated in
    let (marked, m, len) =
      mark_responded_total hr seat r.was_aggression (omega (arith, q.answers, inside)) in
    let (tree, es, runs, node) =
      advance-Leads engine bound total q.sound.chips_bound blind blind_pos r.state t.deck seat
        marked acting (rw (board, street) q.dealable) (omega (arith, len, q.answers, count))
        (omega (arith, inside, count)) in
    (tree, r.events ++ es, rw at (rw (e, h, m, runs) refl), node)
