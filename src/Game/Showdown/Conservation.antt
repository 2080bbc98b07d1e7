-- ===== src/Game/Showdown/Conservation.antt =====
-- `resolve_showdown` of engine.rs pays out exactly what was staked.
use vibe_poker.Base.{
  ℕ, zero, suc, ◌+◌, max, ◌<◌, ◌≡◌, refl, ap, sym, ◌∙◌, ◌⊎◌, inl, inr, false, List, [], ◌∷◌, some,
  ◌>>=◌, get_elem?, get_elem?-lt, arith, All, All-get, ◌==◌, ==_iff, Bool-cases, length,
  length-replicate, replicate, sum_of, u32_mod, add32, add32_fits,
}
use vibe_poker.Core.Card.{Card}
use vibe_poker.Game.State.{PlayerState, GameState, is_folded}
use vibe_poker.Game.Pots.{ShowdownPot, build_showdown_pots}
use vibe_poker.Game.Pots.Conservation.{IsNonempty, amounts, committed, amounts-build_showdown_pots}
use vibe_poker.Game.Betting.Ledger.{chips}
use vibe_poker.Game.Showdown.{
  max_rank, best_rank, seats_of_rank, apply_deltas, ranked, winners, award_pot, award_pots,
  resolve_showdown,
}
use vibe_poker.Game.Showdown.Share.{sum, Paid, InRange-of, add_at-Paid, split_pot-Paid, Paid-bind}
use vibe_poker.Game.Showdown.Eligible.{CanWin, IsGoodPot, build_showdown_pots-IsGoodPot}

-- Whoever has chips in the pots and has not folded holds two cards.
abbrev pub AreDealt : List PlayerState → Type 0
AreDealt = All (λ (p : PlayerState).
    is_folded p.status ≡ false
    → 0 < p.total_committed
    → (h : Card × Card) × (p.hole_cards ≡ some h))

-- Some seat has the best rank.
max_rank-attained :
    (b : ℕ) (rs : List (ℕ × ℕ))
    → (max_rank b rs ≡ b) ⊎ IsNonempty (seats_of_rank (max_rank b rs) rs)
max_rank-attained b [] = inl refl
max_rank-attained b ((s, r) ∷ rs) = elim (Bool-cases (r == max_rank (max b r) rs)) [
  | inl e ↦ inr (rw e tt)
  | inr e ↦ elim (max_rank-attained (max b r) rs) [
    | inl h ↦ inl (ground arith)
    | inr h ↦ inr (rw e h)
  ]
]

seats_of_rank-InRange :
    (best n : ℕ) (rs : List (ℕ × ℕ))
    → All (λ (e : ℕ × ℕ). e.0 < n) rs
    → All (λ w. w < n) (seats_of_rank best rs)
seats_of_rank-InRange best n [] a = tt
seats_of_rank-InRange best n ((s, r) ∷ rs) a = elim (Bool-cases (r == best)) [
  | inl e ↦ rw e (a.0, seats_of_rank-InRange best n rs a.1)
  | inr e ↦ rw e (seats_of_rank-InRange best n rs a.1)
]

best_seat : (s r : ℕ) (rs : List (ℕ × ℕ)) → IsNonempty (seats_of_rank (max_rank r rs) ((s, r) ∷ rs))
best_seat s r rs = elim (Bool-cases (r == max_rank r rs)) [
  | inl e ↦ rw e tt
  | inr e ↦ elim (max_rank-attained r rs) [ inl h ↦ absurd (ground arith) | inr h ↦ rw e h ]
]

unpaid : (amount : ℕ) (deltas : List ℕ) → amount ≡ 0 → Paid deltas amount (some deltas)
unpaid amount deltas e = record {
  result = deltas;
  returned = refl;
  length_kept = refl;
  sum_grows = omega arith;
}

module _ (rank_7 : List Card → ℕ) where
  ranked_total :
      (ps : List PlayerState) (board : List Card) (seats : List ℕ)
      → AreDealt ps
      → All (CanWin ps) seats
      → (rs : List (ℕ × ℕ)) × (ranked rank_7 ps board seats ≡ some rs)
        × All (λ (e : ℕ × ℕ). e.0 < length ps) rs
        × (IsNonempty seats → IsNonempty rs)
  unfolding ranked
  ranked_total ps board [] d a = ([], refl, tt, λ h. h)
  ranked_total ps board (seat ∷ seats) d a =
      let c = a.0 in
      let (h, cards) =
        All-get
          (λ (p : PlayerState).
            is_folded p.status ≡ false
            → 0 < p.total_committed
            → (h : Card × Card) × (p.hole_cards ≡ some h))
          ps seat c.player d c.entry c.live c.staked in
      let (rs, e, below, _) = ranked_total ps board seats d a.1 in
      (
        (seat, rank_7 (h.0 ∷ h.1 ∷ board)) ∷ rs,
        rw (c.entry, cards, e) refl,
        (get_elem?-lt ps seat c.entry, below),
        λ _. tt,
      )

  best_total :
      (n : ℕ) (rs : List (ℕ × ℕ))
      → All (λ (e : ℕ × ℕ). e.0 < n) rs
      → IsNonempty rs
      → (w : ℕ) × (ws : List ℕ) × ((best_rank rs >>= λ best. some (seats_of_rank best rs))
          ≡ some (w ∷ ws))
        × All (λ x. x < n) (w ∷ ws)
  best_total n [] a h = elim h [ ]
  best_total n ((s, r) ∷ rs) a h =
      split (seats_of_rank (max_rank r rs) ((s, r) ∷ rs)) refl (best_seat s r rs)
        (seats_of_rank-InRange (max_rank r rs) n ((s, r) ∷ rs) a)
    where
      split :
          (l : List ℕ)
          → seats_of_rank (max_rank r rs) ((s, r) ∷ rs) ≡ l
          → IsNonempty l
          → All (λ x. x < n) l
          → (w : ℕ) × (ws : List ℕ) × (some (seats_of_rank (max_rank r rs) ((s, r) ∷ rs))
              ≡ some (w ∷ ws))
            × All (λ x. x < n) (w ∷ ws)
      split [] e m b = elim m [ ]
      split (w ∷ ws) e m b = (w, ws, ap some e, b)

  winners_total :
      (ps : List PlayerState) (board : List Card) (seats : List ℕ)
      → AreDealt ps
      → All (CanWin ps) seats
      → IsNonempty seats
      → (w : ℕ) × (ws : List ℕ) × (winners rank_7 ps board seats ≡ some (w ∷ ws))
        × All (λ x. x < length ps) (w ∷ ws)
  unfolding winners
  winners_total ps board seats d a h =
      let (rs, e, below, more) = ranked_total ps board seats d a in
      let (w, ws, best, b) = best_total (length ps) rs below (more h) in (w, ws, rw e best, b)

  award_pot-Paid :
      (s : GameState) (pot : ShowdownPot) (deltas : List ℕ)
      → AreDealt s.players
      → IsGoodPot s.players pot
      → length deltas ≡ length s.players
      → Paid deltas pot.0 (award_pot rank_7 s pot deltas)
  unfolding award_pot
  award_pot-Paid s (amount, []) deltas d good e = elim good.0 [ ]
  award_pot-Paid s (amount, seat ∷ []) deltas d good e = elim (Bool-cases (amount == 0)) [
    | inl z ↦ rw z (unpaid amount deltas ((==_iff amount 0).0 z))
    | inr z ↦
        let c = good.1.0 in
        rw z (add_at-Paid deltas seat amount (omega (arith, get_elem?-lt s.players seat c.entry)))
  ]
  award_pot-Paid s (amount, seat ∷ more ∷ seats) deltas d good e = elim (Bool-cases (amount == 0)) [
    | inl z ↦ rw z (unpaid amount deltas ((==_iff amount 0).0 z))
    | inr z ↦
        let (w, ws, found, below) =
          winners_total s.players s.board (seat ∷ more ∷ seats) d good.1 tt in
        rw (z, found)
          (split_pot-Paid s.dealer (length s.players) amount w ws deltas (sym e)
            (InRange-of deltas _ (w ∷ ws) (sym e) below))
  ]

  award_pots-Paid :
      (s : GameState) (pots : List ShowdownPot) (deltas : List ℕ)
      → AreDealt s.players
      → All (IsGoodPot s.players) pots
      → length deltas ≡ length s.players
      → Paid deltas (amounts pots) (award_pots rank_7 s pots deltas)
  unfolding award_pots
  award_pots-Paid s [] deltas d good e = unpaid 0 deltas refl
  award_pots-Paid s (pot ∷ pots) deltas d good e =
      Paid-bind deltas pot.0 (amounts pots) (award_pot rank_7 s pot deltas)
        (award_pots rank_7 s pots) (award_pot-Paid s pot deltas d good.0 e)
        (λ ds same. award_pots-Paid s pots ds d good.1 (same ∙ e))

abbrev pub stacks : List PlayerState → ℕ
stacks = sum_of (λ (p : PlayerState). p.stack)

apply_deltas_total :
    (ps : List PlayerState) (deltas : List ℕ)
    → length deltas ≡ length ps
    → stacks ps + sum deltas < u32_mod
    → (qs : List PlayerState) × (apply_deltas ps deltas ≡ some qs)
      × (stacks qs ≡ stacks ps + sum deltas)
unfolding apply_deltas
apply_deltas_total [] [] e h = ([], refl, omega arith)
apply_deltas_total [] (d ∷ deltas) e h = absurd (omega arith)
apply_deltas_total (p ∷ ps) [] e h = absurd (omega arith)
apply_deltas_total (p ∷ ps) (d ∷ deltas) e h =
    let (qs, done, total) = apply_deltas_total ps deltas (omega arith) (omega arith) in
    (
      record p { stack = add32 p.stack d } ∷ qs,
      rw done refl,
      omega (arith, total, add32_fits p.stack d (omega arith)),
    )

pub sum-replicate : (n : ℕ) → sum (replicate n 0) ≡ 0
sum-replicate zero = refl
sum-replicate (suc n) = omega (arith, sum-replicate n)

pub chips-split : (ps : List PlayerState) → chips ps ≡ stacks ps + committed ps
chips-split [] = omega arith
chips-split (p ∷ ps) = omega (arith, chips-split ps)

-- With a full board, chips that fit a `u32`, cards for everyone who has chips in and has not folded,
-- and at least one such player, the showdown is resolved without a panic, whatever the evaluator:
-- the payouts add up to all that was staked, and afterwards the stacks hold all the chips that the
-- players had and staked before.
pub resolve_showdown_conserves :
    (rank_7 : List Card → ℕ) (s : GameState) (k : ℕ) (p : PlayerState)
    → length s.board ≡ 5
    → chips s.players < u32_mod
    → AreDealt s.players
    → get_elem? s.players k ≡ some p
    → is_folded p.status ≡ false
    → 0 < p.total_committed
    → (t : GameState) × (deltas : List ℕ) × (resolve_showdown rank_7 s ≡ some (t, deltas))
      × (sum deltas ≡ committed s.players)
      × (stacks t.players ≡ chips s.players)
unfolding resolve_showdown
resolve_showdown_conserves rank_7 s k p board bound dealt g live staked =
    let n = length s.players in
    let chips_in = chips-split s.players in
    let pots = amounts-build_showdown_pots s.players k p g live staked (omega (arith, chips_in)) in
    let paid =
      award_pots-Paid rank_7 s (build_showdown_pots s.players) (replicate n 0) dealt
        (build_showdown_pots-IsGoodPot s.players) (length-replicate n 0) in
    let all_paid : sum paid.result ≡ committed s.players =
      omega (arith, paid.sum_grows, pots, sum-replicate n) in
    let (qs, done, total) =
      apply_deltas_total s.players paid.result (paid.length_kept ∙ length-replicate n 0)
        (omega (arith, all_paid, chips_in)) in
    (
      record s { players = qs },
      paid.result,
      rw (board, paid.returned, done) refl,
      all_paid,
      omega (arith, total, all_paid, chips_in),
    )
