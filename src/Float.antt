-- ===== src/Float.antt =====
-- The floating point numbers of the program: a type with the operations that the code uses.
-- Laws that a theorem relies on are hypotheses of that theorem.
use synthizer.Base.{ℕ, Bool}

pub record Float : Type 1 where
  pub Real : Type 0
  pub of_unsigned : ℕ → Real
  pub fadd : Real → Real → Real
  pub fsub : Real → Real → Real
  pub fmul : Real → Real → Real
  pub fdiv : Real → Real → Real
  pub flt : Real → Real → Bool
  pub fle : Real → Real → Bool
