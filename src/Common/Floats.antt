-- ===== src/Common/Floats.antt =====
-- What the code does with `double`: arithmetic, comparisons, and `round(log10(x))`.
use mathlib.Core.Bool.{Bool}
use fts.Common.Int.{ℤ, pos, ◌+ℤ◌, ◌-ℤ◌, ◌*ℤ◌, div_ℤ, lt_ℤ, le_ℤ, eq_ℤ}

-- The type and its operations are a parameter of the components that compute with them. No law is
-- assumed of them, so a value may be rounded, infinite or not a number.
pub record Double (F : Type 0) : Type 0 where
  pub of_int : ℤ → F
  pub add : F → F → F
  pub sub : F → F → F
  pub mul : F → F → F
  pub div : F → F → F
  pub lt : F → F → Bool
  pub le : F → F → Bool
  pub feq : F → F → Bool
  pub round_log10 : F → F

-- Whole numbers, on which the theorems are applied.
abbrev pub whole_numbers : Double ℤ
whole_numbers = record {
  of_int = λ n. n;
  add = ◌+ℤ◌;
  sub = ◌-ℤ◌;
  mul = ◌*ℤ◌;
  div = div_ℤ;
  lt = lt_ℤ;
  le = le_ℤ;
  feq = eq_ℤ;
  round_log10 = λ n. div_ℤ n (pos 10);
}
