-- ===== src/Game/Pots.antt =====
-- crates/poker-engine/src/game/pot_calc.rs: collecting a street's bets, and the pots of a showdown.
pub mod Levels
pub mod Slices
pub mod Conservation
use vibe_poker.Base.{
  ℕ, zero, suc, ◌%◌, ◌^◌, ◌+◌, Bool, true, false, not, ◌&&◌, List, [], ◌∷◌, ◌++◌, map, Option, none,
  some, count_if, sum32, add32, sub32, mul32, u32_mod, ltb, leb, ◌==◌, if◌then◌else◌,
}
use vibe_poker.Game.State.{PlayerState, Pot, is_folded}

unfoldable pub collect_street_bets : List PlayerState → Pot → List PlayerState × Pot
collect_street_bets players pot = (
  map (λ (p : PlayerState). record p { bet_this_street = 0 }) players,
  record pot { main = add32 pot.main (sum32 (λ (p : PlayerState). p.bet_this_street) players) },
)

-- `levels.sort_unstable()`, by insertion: for numbers every sort gives the same list.
unfoldable pub insert_level : ℕ → List ℕ → List ℕ
insert_level x [] = x ∷ []
insert_level x (y ∷ ys) = if leb x y then x ∷ y ∷ ys else y ∷ insert_level x ys

unfoldable pub sort : List ℕ → List ℕ
unfolding insert_level
sort [] = []
sort (x ∷ xs) = insert_level x (sort xs)

-- `levels.dedup()` drops an entry that equals the one kept before it.
unfoldable pub dedup_from : ℕ → List ℕ → List ℕ
dedup_from prev [] = []
dedup_from prev (x ∷ xs) = if x == prev then dedup_from prev xs else x ∷ dedup_from x xs

unfoldable pub dedup : List ℕ → List ℕ
unfolding dedup_from
dedup [] = []
dedup (x ∷ xs) = x ∷ dedup_from x xs

-- `.map(|p| p.total_committed).filter(|&c| c > 0)`
unfoldable pub commitments : List PlayerState → List ℕ
commitments [] = []
commitments (p ∷ ps) =
    if ltb 0 p.total_committed then p.total_committed ∷ commitments ps else commitments ps

unfoldable pub levels : List PlayerState → List ℕ
unfolding sort dedup commitments
levels players = dedup (sort (commitments players))

abbrev pub contributes : ℕ → PlayerState → Bool
contributes level p = leb level p.total_committed

abbrev pub may_win : ℕ → PlayerState → Bool
may_win level p = leb level p.total_committed && not (is_folded p.status)

-- The seats of a list of players that pass a test, numbered from `i`.
unfoldable pub seats_from : ℕ → (PlayerState → Bool) → List PlayerState → List ℕ
seats_from i test [] = []
seats_from i test (p ∷ ps) =
    let rest = seats_from (i + 1) test ps in if test p then i ∷ rest else rest

unfoldable pub eligible : ℕ → List PlayerState → List ℕ
unfolding seats_from
eligible level players = seats_from 0 (may_win level) players

abbrev pub ShowdownPot : Type 0
ShowdownPot = ℕ × List ℕ

-- `(level - prev) * n_contributors as u32`
unfoldable pub pot_slice : ℕ → ℕ → List PlayerState → ℕ
pot_slice prev level players =
    mul32 (sub32 level prev) (count_if (contributes level) players % u32_mod)

-- `result.last_mut()`: the chips join the pot made last, or are left out if there is none.
unfoldable pub merge_into_last : ℕ → List ShowdownPot → List ShowdownPot
merge_into_last slice [] = []
merge_into_last slice ((amount, seats) ∷ []) = (add32 amount slice, seats) ∷ []
merge_into_last slice (pot ∷ pots) = pot ∷ merge_into_last slice pots

-- One round of the loop over the levels.
unfoldable pub add_slice : ℕ → List ℕ → List ShowdownPot → List ShowdownPot
unfolding merge_into_last
add_slice slice [] result = if slice == 0 then result else merge_into_last slice result
add_slice slice (s ∷ seats) result =
    if slice == 0 then result else result ++ (slice, s ∷ seats) ∷ []

unfoldable pub pots_from : List PlayerState → ℕ → List ℕ → List ShowdownPot → List ShowdownPot
unfolding add_slice pot_slice eligible
pots_from players prev [] result = result
pots_from players prev (level ∷ rest) result =
    pots_from players level rest
      (add_slice (pot_slice prev level players) (eligible level players) result)

unfoldable pub build_showdown_pots : List PlayerState → List ShowdownPot
unfolding levels pots_from
build_showdown_pots players = pots_from players 0 (levels players) []
