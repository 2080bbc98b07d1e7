-- ===== src/Game/Action.antt =====
-- crates/poker-engine/src/game/action.rs: what an agent may submit, and what is legal.
use vibe_poker.Base.{ℕ, Bool, true, ◌&&◌, leb, ltb}

pub data Action : Type 0 where
  fold check call all_in : Action
  -- The total bet, not the increment.
  raise : ℕ → Action

pub record LegalActions : Type 0 where
  pub can_check : Bool
  pub can_call : Bool
  pub call_amount : ℕ
  pub can_raise : Bool
  pub min_raise : ℕ
  pub max_raise : ℕ
  pub all_in_amount : ℕ

unfoldable pub is_legal : LegalActions → Action → Bool
is_legal l fold = true
is_legal l check = l.can_check
is_legal l call = l.can_call
is_legal l (raise amount) = l.can_raise && (leb l.min_raise amount && leb amount l.max_raise)
is_legal l all_in = ltb 0 l.all_in_amount
