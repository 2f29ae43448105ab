-- ===== src/Limits/Float.antt =====
-- Go's float64 as a parameter: its operations, and what the rate limiters rely on. Each law holds of
-- IEEE 754 with round to nearest, infinities and NaN included.
use web_bou.Prelude.{ℕ, ◌-◌, ◌+◌, ◌*◌, ◌/◌, ◌≡◌, refl, Bool, true, false, leb, ltb, arith}

pub record Float64 : Type 1 where
  pub F : Type 0
  pub add : F → F → F
  pub sub : F → F → F
  pub mul : F → F → F
  pub div : F → F → F
  -- a < b and a <= b
  pub lt : F → F → Bool
  pub le : F → F → Bool
  -- A whole number, exactly.
  pub of_nat : ℕ → F
  -- Duration.Seconds
  pub seconds : ℕ → F
  pub lt_irrefl : (a : F) → lt a a ≡ false
  -- What is taken from a stock that suffices leaves no more than before.
  pub sub_below :
      (stock amount cap : F)
      → lt cap stock ≡ false
      → le (of_nat 0) amount ≡ true
      → le amount stock ≡ true
      → lt cap (sub stock amount) ≡ false
  pub zero_le_one : le (of_nat 0) (of_nat 1) ≡ true

pub whole_irrefl : (a : ℕ) → ltb a a ≡ false
whole_irrefl a = ground arith

pub whole_below :
    (stock amount cap : ℕ)
    → ltb cap stock ≡ false
    → leb 0 amount ≡ true
    → leb amount stock ≡ true
    → ltb cap (stock - amount) ≡ false
whole_below stock amount cap h k l = ground arith

-- Whole numbers meet the laws.
abbrev pub whole : Float64
whole = record {
  F = ℕ;
  add = ◌+◌;
  sub = ◌-◌;
  mul = ◌*◌;
  div = ◌/◌;
  lt = ltb;
  le = leb;
  of_nat = λ n. n;
  seconds = λ d. d / 1000000000;
  lt_irrefl = whole_irrefl;
  sub_below = whole_below;
  zero_le_one = refl;
}
