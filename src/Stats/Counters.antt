-- ===== src/Stats/Counters.antt =====
-- crates/poker-engine/src/stats/mod.rs: how the counters of a seat stand to each other.
use vibe_poker.Base.{
  ℕ, zero, suc, ◌+◌, ◌≤◌, ◌<◌, Bool, true, false, List, [], ◌∷◌, map, replicate, update, length,
  ltb, if◌then◌else◌, ◌≡◌, ◌∙◌, refl, sym, arith, Bool-cases, inl, inr, All, All-update,
  length-update, length-map, length-replicate,
}
use vibe_poker.Game.Action.{Action, fold, check, call, raise, all_in}
use vibe_poker.Game.Event.{
  EngineEvent, SeatOutcome, hand_started, hole_cards_dealt, board_dealt, action_taken,
  player_all_in, hand_ended,
}
use vibe_poker.Stats.{
  u64, SeatStats, StatsSink, no_hands, new_stats, is_preflop, pot_of, acted, aggressive, passive,
  bump, flag_at, tallied, counted, tally, count_event, count_events,
}

-- The counters of a seat, after at most `n` outcomes.
pub record IsOrdered (n : ℕ) (s : SeatStats) : Type 0 where
  pub raised : s.pfr_hands ≤ s.vpip_hands
  pub played : s.vpip_hands ≤ s.hands_dealt
  pub won : s.hands_won ≤ s.hands_dealt
  pub few : s.hands_dealt ≤ n

-- How many outcomes the events bring.
abbrev pub outcomes : List EngineEvent → ℕ
outcomes [] = 0
outcomes (hand_ended hand_id r ∷ es) = length r.seats + outcomes es
outcomes (_ ∷ es) = outcomes es

-- A raise before the flop is a voluntary one.
abbrev IsVoluntary : StatsSink → Type 0
IsVoluntary k = (i : ℕ) → flag_at k.pfr_this_hand i ≡ true → flag_at k.vpip_this_hand i ≡ true

abbrev IsTallied : ℕ → StatsSink → Type 0
IsTallied n k =
    All (IsOrdered n) k.seats × IsVoluntary k × (length k.pfr_this_hand ≡ length k.vpip_this_hand)

IsOrdered-later :
    (n m : ℕ) (ss : List SeatStats) → n ≤ m → All (IsOrdered n) ss → All (IsOrdered m) ss
IsOrdered-later n m [] h a = tt
IsOrdered-later n m (s ∷ ss) h a = (
  record { raised = a.0.raised; played = a.0.played; won = a.0.won; few = omega (arith, a.0.few) },
  IsOrdered-later n m ss h a.1,
)

IsTallied-later : (n m : ℕ) (k : StatsSink) → n ≤ m → IsTallied n k → IsTallied m k
IsTallied-later n m k h (a, v, l) = (IsOrdered-later n m k.seats h a, v, l)

tallied-IsOrdered :
    (n pot delta : ℕ) (v p : Bool) (s : SeatStats)
    → n + 1 < u64
    → (p ≡ true → v ≡ true)
    → IsOrdered n s
    → IsOrdered (n + 1) (tallied pot delta v p s)
unfolding tallied
tallied-IsOrdered n pot delta v p s small h x = record {
  raised = ground (arith, x.raised, x.played, x.few, h);
  played = ground (arith, x.played, x.few);
  won = ground (arith, x.won, x.few);
  few = omega (arith, x.few);
}

IsOrdered-update :
    (n : ℕ) (f : SeatStats → SeatStats) (ss : List SeatStats) (i : ℕ)
    → ((s : SeatStats) → IsOrdered n s → IsOrdered (n + 1) (f s))
    → All (IsOrdered n) ss
    → All (IsOrdered (n + 1)) (update f ss i)
IsOrdered-update n f [] i h a = tt
IsOrdered-update n f (s ∷ ss) zero h a = (h s a.0, IsOrdered-later n (n + 1) ss (omega arith) a.1)
IsOrdered-update n f (s ∷ ss) (suc i) h a =
    let first = IsOrdered-later n (n + 1) (s ∷ []) (omega arith) (a.0, tt) in
    (first.0, IsOrdered-update n f ss i h a.1)

counted-IsTallied :
    (n pot : ℕ) (o : SeatOutcome) (k : StatsSink)
    → n + 1 < u64
    → IsTallied n k
    → IsTallied (n + 1) (counted pot o k)
unfolding counted
counted-IsTallied n pot o k small (a, v, l) = elim (Bool-cases o.sat_out) [
  | inl e ↦ rw e (IsOrdered-later n (n + 1) k.seats (omega arith) a, v, l)
  | inr e ↦ rw e (
    IsOrdered-update n
        (tallied pot o.chip_delta (flag_at k.vpip_this_hand o.seat)
          (flag_at k.pfr_this_hand o.seat))
        k.seats o.seat
        (λ s.
          tallied-IsOrdered n pot o.chip_delta (flag_at k.vpip_this_hand o.seat)
            (flag_at k.pfr_this_hand o.seat) s small (v o.seat))
        a,
    v,
    l,
  )
]

tally-IsTallied :
    (n pot : ℕ) (os : List SeatOutcome) (k : StatsSink)
    → n + length os < u64
    → IsTallied n k
    → IsTallied (n + length os) (tally pot os k)
unfolding tally
tally-IsTallied n pot [] k small x = IsTallied-later n (n + 0) k (omega arith) x
tally-IsTallied n pot (o ∷ os) k small x =
    let rest =
      tally-IsTallied (n + 1) pot os (counted pot o k) (omega arith)
        (counted-IsTallied n pot o k (omega arith) x) in
    IsTallied-later (n + 1 + length os) (n + suc (length os)) (tally pot os (counted pot o k))
      (omega arith) rest

flag_at-update :
    (i j : ℕ) (ps vs : List Bool)
    → length ps ≡ length vs
    → ((x : ℕ) → flag_at ps x ≡ true → flag_at vs x ≡ true)
    → flag_at (update (λ _. true) ps i) j ≡ true
    → flag_at (update (λ _. true) vs i) j ≡ true
flag_at-update i j [] [] l h e = e
flag_at-update i j [] (v ∷ vs) l h e = absurd (omega (arith, l))
flag_at-update i j (p ∷ ps) [] l h e = absurd (omega (arith, l))
flag_at-update zero zero (p ∷ ps) (v ∷ vs) l h e = refl
flag_at-update zero (suc j) (p ∷ ps) (v ∷ vs) l h e = h (suc j) e
flag_at-update (suc i) zero (p ∷ ps) (v ∷ vs) l h e = h 0 e
flag_at-update (suc i) (suc j) (p ∷ ps) (v ∷ vs) l h e =
    flag_at-update i j ps vs (omega (arith, l)) (λ x. h (suc x)) e

flag_at-raised :
    (i j : ℕ) (vs : List Bool) → flag_at vs j ≡ true → flag_at (update (λ _. true) vs i) j ≡ true
flag_at-raised i j [] e = e
flag_at-raised zero zero (v ∷ vs) e = refl
flag_at-raised zero (suc j) (v ∷ vs) e = e
flag_at-raised (suc i) zero (v ∷ vs) e = e
flag_at-raised (suc i) (suc j) (v ∷ vs) e = flag_at-raised i j vs e

flag_at-cleared : (vs : List Bool) (j : ℕ) → flag_at (map (λ _. false) vs) j ≡ false
flag_at-cleared [] j = refl
flag_at-cleared (v ∷ vs) zero = refl
flag_at-cleared (v ∷ vs) (suc j) = flag_at-cleared vs j

aggressive-IsTallied :
    (n seat : ℕ) (k : StatsSink) → IsTallied n k → IsTallied n (aggressive seat k)
aggressive-IsTallied n seat k (a, v, l) =
    let kept =
      All-update (IsOrdered n) (λ s. record s { aggressive_actions = bump s.aggressive_actions })
        k.seats seat
        (λ s x. record { raised = x.raised; played = x.played; won = x.won; few = x.few }) a in
    elim (Bool-cases (is_preflop k.current_street)) [
      | inl e ↦ rw e (
        kept,
        (λ j. flag_at-update seat j k.pfr_this_hand k.vpip_this_hand l v),
        length-update _ k.pfr_this_hand seat ∙ l ∙ sym (length-update _ k.vpip_this_hand seat),
      )
      | inr e ↦ rw e (kept, v, l)
    ]

passive-IsTallied : (n seat : ℕ) (k : StatsSink) → IsTallied n k → IsTallied n (passive seat k)
passive-IsTallied n seat k (a, v, l) =
    let kept =
      All-update (IsOrdered n) (λ s. record s { passive_actions = bump s.passive_actions }) k.seats
        seat (λ s x. record { raised = x.raised; played = x.played; won = x.won; few = x.few }) a in
    elim (Bool-cases (is_preflop k.current_street)) [
      | inl e ↦ rw e (
        kept,
        (λ j p. flag_at-raised seat j k.vpip_this_hand (v j p)),
        l ∙ sym (length-update _ k.vpip_this_hand seat),
      )
      | inr e ↦ rw e (kept, v, l)
    ]

acted-IsTallied :
    (n seat : ℕ) (action : Action) (k : StatsSink)
    → IsTallied n k
    → IsTallied n (acted seat action k)
acted-IsTallied n seat (raise total) k x = aggressive-IsTallied n seat k x
acted-IsTallied n seat all_in k x = aggressive-IsTallied n seat k x
acted-IsTallied n seat call k x = passive-IsTallied n seat k x
acted-IsTallied n seat fold k x = x
acted-IsTallied n seat check k x = x

if-IsTallied :
    (b : Bool) (n : ℕ) (x y : StatsSink)
    → IsTallied n x
    → IsTallied n y
    → IsTallied n (if b then x else y)
if-IsTallied true n x y h k = h
if-IsTallied false n x y h k = k

count_events-IsTallied :
    (es : List EngineEvent) (n : ℕ) (k : StatsSink)
    → n + outcomes es < u64
    → IsTallied n k
    → IsTallied (n + outcomes es) (count_events es k)
unfolding count_events count_event
count_events-IsTallied [] n k small x = IsTallied-later n (n + 0) k (omega arith) x
count_events-IsTallied (hand_started i d s ∷ es) n k small (a, v, l) =
    count_events-IsTallied es n _ small (
      a,
      (λ j e. absurd (let off = flag_at-cleared k.pfr_this_hand j in ground arith)),
      length-map _ k.pfr_this_hand ∙ l ∙ sym (length-map _ k.vpip_this_hand),
    )
count_events-IsTallied (hole_cards_dealt _ _ ∷ es) n k small x =
    count_events-IsTallied es n k small x
count_events-IsTallied (board_dealt _ _ ∷ es) n k small x = count_events-IsTallied es n _ small x
count_events-IsTallied (action_taken seat action _ ∷ es) n k small x =
    count_events-IsTallied es n _ small (
      if-IsTallied (ltb seat (length k.seats)) n (acted seat action k) k
        (acted-IsTallied n seat action k x) x)
count_events-IsTallied (player_all_in _ _ ∷ es) n k small x = count_events-IsTallied es n k small x
count_events-IsTallied (hand_ended i r ∷ es) n k small x =
    let here = tally-IsTallied n (pot_of r.seats) r.seats k (omega arith) x in
    let rest =
      count_events-IsTallied es (n + length r.seats) (tally (pot_of r.seats) r.seats k)
        (omega arith) here in
    IsTallied-later (n + length r.seats + outcomes es) (n + (length r.seats + outcomes es))
      (count_events es (tally (pot_of r.seats) r.seats k)) (omega arith) rest

new_stats-IsTallied : (n : ℕ) → IsTallied 0 (new_stats n)
new_stats-IsTallied n =
    (fresh n, (λ j e. e), length-replicate n false ∙ sym (length-replicate n false))
  where
    fresh : (m : ℕ) → All (IsOrdered 0) (replicate m no_hands)
    fresh zero = tt
    fresh (suc m) = (
      record { raised = omega arith; played = omega arith; won = omega arith; few = omega arith },
      fresh m,
    )

-- Whatever events are counted, in whatever order, from an empty sink: no seat has raised before the
-- flop in more hands than it has put chips in before the flop, nor that in more hands than it was
-- dealt, nor won more hands than it was dealt. It is assumed that the outcomes are fewer than 2 ^ 64.
pub count_events-IsOrdered :
    (n : ℕ) (es : List EngineEvent)
    → outcomes es < u64
    → All (IsOrdered (outcomes es)) (count_events es (new_stats n)).seats
count_events-IsOrdered n es small =
    IsOrdered-later (0 + outcomes es) (outcomes es) (count_events es (new_stats n)).seats
      (omega arith)
      (count_events-IsTallied es 0 (new_stats n) (omega arith) (new_stats-IsTallied n)).0
