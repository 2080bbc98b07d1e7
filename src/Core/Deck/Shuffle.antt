-- ===== src/Core/Deck/Shuffle.antt =====
-- The shuffle of deck.rs, whatever the generator returns, only reorders the deck.
use mathlib.Core.List.{Perm}
use mathlib.Core.List.Perm
use vibe_poker.Base.{
  ℕ, zero, suc, ◌<◌, ◌≡◌, refl, ◌∙◌, inl, inr, List, [], ◌∷◌, some, arith, get_elem?, set, length,
  length-set, get_elem?-lt, get_elem?_total, get_elem?-set_self, get_elem?-set_ne, Bool-cases, ◌==◌,
  ==_iff,
}
use vibe_poker.Core.Card.{Card, deck_size}
use vibe_poker.Core.Deck.{Deck, cards_from, swap, shuffle_from, new_deck, Generator}

-- A write trades the old entry for the new one.
set-perm :
    (xs : List Card) (i : ℕ) (x v : Card) → get_elem? xs i ≡ some x → Perm (x ∷ set xs i v) (v ∷ xs)
set-perm [] i x v g = absurd (ground arith)
set-perm (y ∷ xs) zero x v g = let e : y ≡ x = ground arith in rw e (Perm.swap v x xs)
set-perm (y ∷ xs) (suc i) x v g =
    Perm.trans (Perm.swap y x _) (Perm.trans (Perm.cons y (set-perm xs i x v g)) (Perm.swap v y xs))

-- After the first write of a swap, the other place still holds what will be written back.
set-other :
    (xs : List Card) (i j : ℕ) (b : Card)
    → get_elem? xs j ≡ some b
    → get_elem? (set xs i b) j ≡ some b
set-other xs i j b g = elim (Bool-cases (i == j)) [
  | inl e ↦ rw ((==_iff i j).0 e) (get_elem?-set_self xs j b (get_elem?-lt xs j g))
  | inr e ↦ get_elem?-set_ne xs i j b (λ same. absurd (ground arith)) ∙ g
]

swap_lem :
    (xs : List Card) (i j : ℕ)
    → i < length xs
    → j < length xs
    → (ys : List Card) × (swap xs i j ≡ some ys) × Perm ys xs × (length ys ≡ length xs)
unfolding swap
swap_lem xs i j hi hj =
    let (a, ga) = get_elem?_total xs i hi in
    let (b, gb) = get_elem?_total xs j hj in
    (
      set (set xs i b) j a,
      rw (ga, gb) refl,
      Perm.cons_inv
          (Perm.trans (set-perm (set xs i b) j b a (set-other xs i j b gb)) (set-perm xs i a b ga)),
      length-set (set xs i b) j a ∙ length-set xs i b,
    )

module _ (rand : Generator) where
  open rand use {Rng, seed_from_u64, gen_range, in_range}

  shuffle_from-perm :
      (i : ℕ) (g : Rng) (xs : List Card)
      → i < length xs
      → (ys : List Card) × (shuffle_from rand i g xs ≡ some ys) × Perm ys xs
  unfolding shuffle_from
  shuffle_from-perm zero g xs h = (xs, refl, Perm.refl xs)
  shuffle_from-perm (suc i) g xs h =
      let j = gen_range g (suc i) in
      let (ys, done, p, n) = swap_lem xs (suc i) j.0 h (omega (arith, in_range g (suc i))) in
      let (zs, rest, q) = shuffle_from-perm i j.1 ys (omega (arith, n)) in
      (zs, rw done rest, Perm.trans q p)

  -- A new deck is made without a panic for every seed: it holds the 52 cards, each once, in some
  -- order, and none is dealt yet.
  pub new_deck-perm :
      (seed : ℕ)
      → (d : Deck) × (new_deck rand seed ≡ some d)
        × Perm d.cards (cards_from 0 deck_size)
        × (d.cursor ≡ 0)
        × (d.seed ≡ seed)
  unfolding new_deck
  new_deck-perm seed =
      let (ys, done, p) =
        shuffle_from-perm 51 (seed_from_u64 seed) (cards_from 0 deck_size)
          (unfold cards_from in omega arith) in
      (record { cards = ys; cursor = 0; seed = seed }, rw done refl, p, refl, refl)
