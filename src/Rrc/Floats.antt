-- ===== src/Rrc/Floats.antt =====
-- Go's floating-point numbers and the functions of package math that the engine calls, as an
-- interface: a theorem names the laws that it needs among its hypotheses.
use grudge_ai.Prelude.{ℕ, ℤ, Bool}

pub record Floats : Type 1 where
  pub F : Type 0
  pub zero : F
  pub one : F
  pub infinity : F
  pub lt : F → F → Bool
  pub le : F → F → Bool
  pub add : F → F → F
  pub sub : F → F → F
  pub mul : F → F → F
  pub div : F → F → F
  pub of_ℕ : ℕ → F
  pub of_ℤ : ℤ → F
  pub to_ℤ : F → ℤ
  pub neg : F → F
  pub log2 : F → F
  pub exp2 : F → F
  pub to_float32 : F → F
