-- ===== src/Core/Deck.antt =====
-- crates/poker-engine/src/core/deck.rs: the shuffled deck and dealing from it.
pub mod Shuffle
use vibe_poker.Base.{
  ℕ, zero, suc, ◌+◌, ◌-◌, ◌<◌, List, [], ◌∷◌, Option, none, some, ◌>>=◌, get_elem?, set,
}
use vibe_poker.Core.Card.{Card, deck_size}

pub record Deck : Type 0 where
  pub cards : List Card
  pub cursor : ℕ
  pub seed : ℕ

-- `std::array::from_fn(|i| Card(i as u8))`, `n` cards from the byte `i` on.
unfoldable pub cards_from : ℕ → ℕ → List Card
cards_from i zero = []
cards_from i (suc n) = record { bits = i } ∷ cards_from (i + 1) n

-- `cards.swap(i, j)`; `none` is a panic.
unfoldable pub swap : List Card → ℕ → ℕ → Option (List Card)
swap cards i j = do a ← get_elem? cards i; b ← get_elem? cards j; some (set (set cards i b) j a)

-- `Deck::deal`: the read past the end panics.
unfoldable pub deal : Deck → Option (Card × Deck)
deal d = do c ← get_elem? d.cards d.cursor; some (c, record d { cursor = d.cursor + 1 })

unfoldable pub remaining : Deck → ℕ
remaining d = deck_size - d.cursor

-- `(0..n).map(|_| deck.deal()).collect()`
unfoldable pub deal_many : ℕ → Deck → Option (List Card × Deck)
unfolding deal
deal_many zero d = some ([], d)
deal_many (suc n) d = do (c, d') ← deal d; (cs, d'') ← deal_many n d'; some (c ∷ cs, d'')

-- The generator is the crate `rand`'s: a state, and `gen_range(0..=i)` with its documented range.
pub record Generator : Type 1 where
  pub Rng : Type 0
  pub seed_from_u64 : ℕ → Rng
  pub gen_range : Rng → ℕ → ℕ × Rng
  pub in_range : (g : Rng) (i : ℕ) → (gen_range g i).0 < suc i

module _ (rand : Generator) where
  open rand use {Rng, seed_from_u64, gen_range}

  -- `for i in (1..n).rev()`, from `i` down.
  unfoldable pub shuffle_from : ℕ → Rng → List Card → Option (List Card)
  unfolding swap
  shuffle_from zero g cards = some cards
  shuffle_from (suc i) g cards =
      let (j, g') = gen_range g (suc i) in swap cards (suc i) j >>= shuffle_from i g'

  -- `Deck::new`
  unfoldable pub new_deck : ℕ → Option Deck
  unfolding shuffle_from cards_from
  new_deck seed = do
    cards ← shuffle_from (deck_size - 1) (seed_from_u64 seed) (cards_from 0 deck_size)
    some (record { cards = cards; cursor = 0; seed = seed })
