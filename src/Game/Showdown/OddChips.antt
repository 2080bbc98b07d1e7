-- ===== src/Game/Showdown/OddChips.antt =====
-- engine.rs, the splitting of one pot: what each seat gets of it, and who gets the odd chips.
use vibe_poker.Base.{
  ℕ, ◌+◌, ◌/◌, ◌%◌, ◌<◌, ◌≡◌, refl, sym, ◌∙◌, ap, true, false, List, [], ◌∷◌, some, length, arith,
  get_elem?, get_elem?_total, get_elem?-set_self, get_elem?-set_ne, set, length-set, ltb, ◌==◌,
  if◌then◌else◌, Bool-cases, inl, inr, Option,
}
use vibe_poker.Game.Showdown.{
  add_at, pay_shares, contains, left_of_dealer, pay_remainder, split_pot,
}
use vibe_poker.Game.Showdown.Share.{InRange, InRange-length, FirstLeft, left_of_dealer_total}

-- No seat is listed twice.
abbrev pub IsDistinct : List ℕ → Type 0
IsDistinct [] = Unit
IsDistinct (w ∷ ws) = (contains ws w ≡ false) × IsDistinct ws

-- Payouts in which the seat `i`, with `d` so far, has `x` more.
record Gives (deltas : List ℕ) (i d x : ℕ) (r : Option (List ℕ)) : Type 0 where
  result : List ℕ
  returned : r ≡ some result
  length_kept : length result ≡ length deltas
  got : get_elem? result i ≡ some (d + x)

add_at-Gives :
    (deltas : List ℕ) (j x i d : ℕ)
    → j < length deltas
    → get_elem? deltas i ≡ some d
    → Gives deltas i d (if i == j then x else 0) (add_at deltas j x)
unfolding add_at
add_at-Gives deltas j x i d h g = elim (Bool-cases (i == j)) [
  | inl e ↦
      (let same : i ≡ j = ground arith in
        let there : get_elem? deltas j ≡ some d = ap (get_elem? deltas) (sym same) ∙ g in
        record {
          result = set deltas j (d + x);
          returned = rw there refl;
          length_kept = length-set deltas j (d + x);
          got =
              rw e (
                ap (get_elem? (set deltas j (d + x))) same ∙ get_elem?-set_self deltas j (d + x) h);
        })
  | inr e ↦
      (let (y, there) = get_elem?_total deltas j h in
        record {
          result = set deltas j (y + x);
          returned = rw there refl;
          length_kept = length-set deltas j (y + x);
          got = rw e (
              get_elem?-set_ne deltas j i (y + x) (λ q. absurd (ground arith))
              ∙ g
              ∙ ap (λ v. some v) (omega arith));
        })
]

-- A seat's share is counted once.
counted :
    (share w : ℕ) (ws : List ℕ) (i d : ℕ)
    → contains ws w ≡ false
    → d + (if i == w then share else 0) + (if contains ws i then share else 0)
      ≡ d + (if contains (w ∷ ws) i then share else 0)
counted share w ws i d u = elim (Bool-cases (i == w)) [
  | inl e ↦
      (let same : i ≡ w = ground arith in
        let back : (w == i) ≡ true = ground arith in
        rw (e, back, ap (contains ws) same ∙ u) (omega arith))
  | inr e ↦
      (let back : (w == i) ≡ false = ground arith in
        rw (e, back) (ap (λ x. x + (if contains ws i then share else 0)) (omega arith)))
]

pay_shares-Gives :
    (share : ℕ) (ws deltas : List ℕ) (i d : ℕ)
    → IsDistinct ws
    → InRange deltas ws
    → get_elem? deltas i ≡ some d
    → Gives deltas i d (if contains ws i then share else 0) (pay_shares share ws deltas)
unfolding pay_shares
pay_shares-Gives share [] deltas i d u h g = record {
  result = deltas;
  returned = refl;
  length_kept = refl;
  got = g ∙ ap (λ v. some v) (omega arith);
}
pay_shares-Gives share (w ∷ ws) deltas i d u h g =
    let first = add_at-Gives deltas w share i d h.0 g in
    let rest =
      pay_shares-Gives share ws first.result i (d + (if i == w then share else 0)) u.1
        (InRange-length ws deltas first.result first.length_kept h.1) first.got in
    record {
      result = rest.result;
      returned = rw first.returned rest.returned;
      length_kept = rest.length_kept ∙ first.length_kept;
      got = rest.got ∙ ap (λ v. some v) (counted share w ws i d u.0);
    }

pay_remainder-Gives :
    (dealer n remainder seat : ℕ) (ws deltas : List ℕ) (i d : ℕ)
    → left_of_dealer dealer n ws n 0 ≡ some seat
    → seat < length deltas
    → get_elem? deltas i ≡ some d
    → Gives deltas i d
        (if i == seat then remainder else 0)
        (pay_remainder dealer n ws remainder deltas)
unfolding pay_remainder
pay_remainder-Gives dealer n remainder seat ws deltas i d found below g =
    elim (Bool-cases (ltb 0 remainder)) [
      | inl e ↦ rw (e, found) (add_at-Gives deltas seat remainder i d below g)
      | inr e ↦ rw e (record {
        result = deltas;
        returned = refl;
        length_kept = refl;
        got = g ∙ ap (λ v. some v) (ground arith);
      })
    ]

-- A pot is split without a panic: of the chips, each winner's payout goes up by the amount divided
-- by the number of winners; what does not divide goes, in whole, to the winner that is met first
-- going round from the dealer's left; and no other payout changes. It is assumed that there is a
-- winner, and that the winners are different seats of the hand.
pub split_pot_lem :
    (dealer amount w : ℕ) (ws deltas : List ℕ) (i d : ℕ)
    → IsDistinct (w ∷ ws)
    → InRange deltas (w ∷ ws)
    → get_elem? deltas i ≡ some d
    → let n = length deltas in
      let k = length (w ∷ ws) in
      (odd : ℕ) × (paid : List ℕ) × (split_pot dealer n amount (w ∷ ws) deltas ≡ some paid)
      × FirstLeft dealer n (w ∷ ws) 0 odd
      × (get_elem? paid i
          ≡ some (
              d
              + (if contains (w ∷ ws) i then amount / k else 0)
              + (if i == odd then amount % k else 0)))
unfolding split_pot
split_pot_lem dealer amount w ws deltas i d u h g =
    let n = length deltas in
    let k = length (w ∷ ws) in
    let (odd, found, below, first) = left_of_dealer_total dealer n w ws h.0 in
    let shares = pay_shares-Gives (amount / k) (w ∷ ws) deltas i d u h g in
    let rest =
      pay_remainder-Gives dealer n (amount % k) odd (w ∷ ws) shares.result i
        (d + (if contains (w ∷ ws) i then amount / k else 0)) found
        (omega (arith, below, shares.length_kept)) shares.got in
    (odd, rest.result, rw shares.returned rest.returned, first, rest.got)
