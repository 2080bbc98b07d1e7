-- ===== src/Core/Preflop/Canonical.antt =====
-- `PreflopClass::from_hole` of preflop.rs.
use vibe_poker.Base.{◌≡◌, refl, some, arith, ap, ◌∙◌, ◌==◌, leb, if◌then◌else◌}
use vibe_poker.Core.Card.{Rank, Suit, clubs, rank_code, suit_code, new_card}
use vibe_poker.Core.Card.Packing.{unpack-new_card}
use vibe_poker.Core.Preflop.{PreflopClass, pair, suited, offsuit, from_hole, IsCanonical}
use vibe_poker.Core.Preflop.Index.{rank_code-injective}

-- The class of two cards by their ranks and suits.
classify : Rank → Suit → Rank → Suit → PreflopClass
classify rh sh rl sl =
    if rank_code rh == rank_code rl
    then pair rh
    else if suit_code sh == suit_code sl
    then suited rh rl
    else offsuit rh rl

pub class_of : Rank → Suit → Rank → Suit → PreflopClass
unfolding classify
class_of r s q t = if leb (rank_code q) (rank_code r) then classify r s q t else classify q t r s

from_hole-new_card :
    (r : Rank) (s : Suit) (q : Rank) (t : Suit)
    → from_hole (new_card r s) (new_card q t) ≡ some (class_of r s q t)
unfolding from_hole class_of
from_hole-new_card r s q t =
    let a = unpack-new_card r s in let b = unpack-new_card q t in ground (arith, a.0, a.1, b.0, b.1)

class_of-IsCanonical : (r : Rank) (s : Suit) (q : Rank) (t : Suit) → IsCanonical (class_of r s q t)
unfolding class_of
class_of-IsCanonical r s q t = ground arith

class_of_comm : (r : Rank) (s : Suit) (q : Rank) (t : Suit) → class_of r s q t ≡ class_of q t r s
unfolding class_of
class_of_comm r s q t = ground (arith, rank_code-injective r q)

-- Any two cards have a class, which does not depend on their order, and in a class of two ranks
-- the first is strictly the higher.
pub from_hole-IsCanonical :
    (r : Rank) (s : Suit) (q : Rank) (t : Suit)
    → (k : PreflopClass) × (from_hole (new_card r s) (new_card q t) ≡ some k)
      × (from_hole (new_card q t) (new_card r s) ≡ some k)
      × IsCanonical k
from_hole-IsCanonical r s q t = (
  class_of r s q t,
  from_hole-new_card r s q t,
  from_hole-new_card q t r s ∙ ap some (class_of_comm q t r s),
  class_of-IsCanonical r s q t,
)

suit_code-injective : (s t : Suit) → suit_code s ≡ suit_code t → s ≡ t
suit_code-injective clubs t e =
    elim t as (λ x. suit_code clubs ≡ suit_code x → clubs ≡ x) [
      | clubs ↦ λ _. refl
      | _ ↦ λ h. absurd (omega arith)
    ]
      e
suit_code-injective s t e = ground arith

same_suit-map :
    (f : Suit → Suit)
    → ((s t : Suit) → f s ≡ f t → s ≡ t)
    → (s t : Suit) → (suit_code (f s) == suit_code (f t)) ≡ (suit_code s == suit_code t)
same_suit-map f inj s t =
    ground (arith, inj s t, suit_code-injective s t, suit_code-injective (f s) (f t), ap f)

-- Renaming the suits, different ones to different ones, does not change the class of two cards.
pub from_hole_suits :
    (f : Suit → Suit)
    → ((s t : Suit) → f s ≡ f t → s ≡ t)
    → (r : Rank) (s : Suit) (q : Rank) (t : Suit)
    → from_hole (new_card r (f s)) (new_card q (f t)) ≡ from_hole (new_card r s) (new_card q t)
from_hole_suits f inj r s q t =
    rw (from_hole-new_card r (f s) q (f t), from_hole-new_card r s q t) (ap some same)
  where
    same : class_of r (f s) q (f t) ≡ class_of r s q t
    same = unfold class_of in rw (same_suit-map f inj s t, same_suit-map f inj t s)
