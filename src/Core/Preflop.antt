-- ===== src/Core/Preflop.antt =====
-- crates/poker-engine/src/abstraction/preflop.rs: the 169 preflop hand classes and their indices.
pub mod Index
pub mod Canonical
use vibe_poker.Base.{
  ℕ, ◌+◌, ◌-◌, ◌*◌, ◌/◌, ◌%◌, ◌^◌, ◌<◌, Option, none, some, ◌>>=◌, leb, ◌==◌, if◌then◌else◌, List,
  [], ◌∷◌, ◌++◌, map,
}
use vibe_poker.Core.Card.{
  Rank, Suit, Card, rank_code, suit_code, rank, suit, two, three, four, five, six, seven, eight,
  nine, ten, jack, queen, king, ace,
}

pub data PreflopClass : Type 0 where
  pair : Rank → PreflopClass
  suited : Rank → Rank → PreflopClass
  offsuit : Rank → Rank → PreflopClass

-- `PreflopClass::COUNT`
abbrev pub count : ℕ
count = 169

-- `u16` arithmetic of the release build.
abbrev add16 : ℕ → ℕ → ℕ
add16 a b = (a + b) % 2 ^ 16

abbrev sub16 : ℕ → ℕ → ℕ
sub16 a b = (a + 2 ^ 16 - b) % 2 ^ 16

unfoldable pub non_pair_offset : Rank → Rank → ℕ
non_pair_offset high low =
    let h = rank_code high in
    let l = rank_code low in
    let row_start = sub16 78 (h * add16 h 1 / 2) in add16 row_start (sub16 (sub16 h 1) l)

unfoldable pub class_index : PreflopClass → ℕ
unfolding non_pair_offset
class_index (pair r) = sub16 12 (rank_code r)
class_index (suited h l) = add16 13 (non_pair_offset h l)
class_index (offsuit h l) = add16 91 (non_pair_offset h l)

-- Once the higher card stands first: `==` on ranks and suits compares their discriminants.
unfoldable pub from_ordered : Card → Card → Option PreflopClass
from_ordered high low = do
  rh ← rank high
  rl ← rank low
  sh ← suit high
  sl ← suit low
  if rank_code rh == rank_code rl
      then some (pair rh)
      else if suit_code sh == suit_code sl
      then some (suited rh rl)
      else some (offsuit rh rl)

-- `PreflopClass::from_hole`; `none` where a card's byte is no card.
unfoldable pub from_hole : Card → Card → Option PreflopClass
unfolding from_ordered
from_hole a b = do
  ra ← rank a
  rb ← rank b
  if leb (rank_code rb) (rank_code ra) then from_ordered a b else from_ordered b a

-- The invariant of a class: the first rank of a non-pair is strictly the higher.
abbrev pub IsCanonical : PreflopClass → Type 0
IsCanonical (pair r) = Unit
IsCanonical (suited h l) = rank_code l < rank_code h
IsCanonical (offsuit h l) = rank_code l < rank_code h

-- The documented layout, written out: pairs from aces down, then the suited classes in descending
-- order of the high and then the low rank, then the offsuit ones likewise.
abbrev pub descending : List Rank
descending =
    ace ∷ king ∷ queen ∷ jack ∷ ten ∷ nine ∷ eight ∷ seven ∷ six ∷ five ∷ four ∷ three ∷ two ∷ []

abbrev pub rows : (Rank → Rank → PreflopClass) → List Rank → List PreflopClass
rows f [] = []
rows f (h ∷ ls) = map (f h) ls ++ rows f ls

unfoldable pub layout : List PreflopClass
layout = map pair descending ++ (rows suited descending ++ rows offsuit descending)
