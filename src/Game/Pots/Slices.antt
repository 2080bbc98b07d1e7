-- ===== src/Game/Pots/Slices.antt =====
-- The chips between two levels of pot_calc.rs: each slice holds what every player staked there.
use vibe_poker.Base.{
  ℕ, zero, suc, ◌+◌, ◌-◌, ◌*◌, ◌%◌, ◌≤◌, ◌<◌, ◌≡◌, refl, ◌∙◌, ◌⊎◌, inl, inr, List, [], ◌∷◌, arith,
  All, leb, Bool-cases, sum_of, count_if, mul32, sub32, u32_mod, mul32_fits, sub32_fits, get_elem?,
  some,
}
use native.Mathlib.Nat.{mod-eq_of_lt}
use vibe_poker.Game.State.{PlayerState}
use vibe_poker.Game.Pots.{contributes, pot_slice}

-- What the players staked above a level.
abbrev pub above : ℕ → List PlayerState → ℕ
above prev = sum_of (λ (p : PlayerState). p.total_committed - prev)

-- No stake lies strictly between two levels.
abbrev pub Clear : ℕ → ℕ → List PlayerState → Type 0
Clear prev level =
    All (λ (p : PlayerState). (p.total_committed ≤ prev) ⊎ (level ≤ p.total_committed))

zero_or_pos : (n : ℕ) → (n ≡ 0) ⊎ (0 < n)
zero_or_pos zero = inl refl
zero_or_pos (suc n) = inr (omega arith)

slice-above :
    (prev level : ℕ) (ps : List PlayerState)
    → prev < level
    → Clear prev level ps
    → (level - prev) * count_if (contributes level) ps + above level ps ≡ above prev ps
slice-above prev level [] h c = omega arith
slice-above prev level (p ∷ ps) h c = elim (Bool-cases (leb level p.total_committed)) [
  | inl e ↦ rw e (ground (arith, slice-above prev level ps h c.1))
  | inr e ↦ rw e (ground (arith, slice-above prev level ps h c.1))
]

above_mono : (prev : ℕ) (ps : List PlayerState) → above prev ps ≤ above 0 ps
above_mono prev [] = omega arith
above_mono prev (p ∷ ps) = omega (arith, above_mono prev ps)

above-le : (prev level : ℕ) (ps : List PlayerState) → prev < level → above level ps ≤ above prev ps
above-le prev level [] h = omega arith
above-le prev level (p ∷ ps) h = omega (arith, above-le prev level ps h)

-- A level that somebody reached is at most the chips staked.
level-le :
    (level : ℕ) (ps : List PlayerState) → 0 < count_if (contributes level) ps → level ≤ above 0 ps
level-le level [] h = absurd (omega arith)
level-le level (p ∷ ps) h = ground (arith, level-le level ps)

mul-le : (d n m : ℕ) → 0 < d → d * n ≤ m → n ≤ m
mul-le d n m h k = grind arith

slice_word :
    (prev level n : ℕ)
    → prev < level
    → (level - prev) * n < u32_mod
    → (n ≡ 0) ⊎ (level < u32_mod)
    → mul32 (sub32 level prev) (n % u32_mod) ≡ (level - prev) * n
slice_word prev level n h b (inl e) =
    rw e (mul32_fits (sub32 level prev) 0 (omega arith) ∙ omega arith)
slice_word prev level n h b (inr l) =
    let small : n < u32_mod =
      omega (arith, mul-le (level - prev) n ((level - prev) * n) (omega arith) (omega arith)) in
    rw (sub32_fits level prev (omega arith) l, mod-eq_of_lt small) (mul32_fits (level - prev) n b)

-- In 32-bit arithmetic too, the slice is the level's height for each contributor.
pub pot_slice_lem :
    (prev level : ℕ) (ps : List PlayerState)
    → prev < level
    → Clear prev level ps
    → above 0 ps < u32_mod
    → pot_slice prev level ps + above level ps ≡ above prev ps
unfolding pot_slice
pot_slice_lem prev level ps h c b =
    let exact = slice-above prev level ps h c in
    rw (slice_word prev level _ h (omega (arith, exact, above_mono prev ps)) reached) exact
  where
    reached : (count_if (contributes level) ps ≡ 0) ⊎ (level < u32_mod)
    reached = elim (zero_or_pos (count_if (contributes level) ps)) [
      | inl e ↦ inl e
      | inr e ↦ inr (omega (arith, level-le level ps e))
    ]

-- Above a staked level some of the chips are gone.
pub above-lt :
    (prev level k : ℕ) (ps : List PlayerState) (p : PlayerState)
    → prev < level
    → get_elem? ps k ≡ some p
    → level ≤ p.total_committed
    → above level ps < above prev ps
above-lt prev level k [] p h g l = absurd (ground arith)
above-lt prev level zero (q ∷ ps) p h g l = ground (arith, above-le prev level ps)
above-lt prev level (suc k) (q ∷ ps) p h g l = ground (arith, above-lt prev level k ps p h g l)
