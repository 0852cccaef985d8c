-- ===== src/Domain/Numbers.antt =====
-- Numbers of JavaScript where the code does more with them than integer arithmetic.
use money_across_borders.Base.{ℕ, ◌<◌, ℤ, pos, ◌≤ℤ◌, Bool, true, ◌≡◌}

-- A number as the code tests it: `Number.isInteger`, and its value then. `fractional` is any other
-- number, NaN and the infinities among them.
pub data Number : Type 0 where
  integer : ℤ → Number
  fractional : Number

-- The literal n / 10 ^ k is positive and far from the ends of the range of a double.
abbrev pub IsLiteral : ℕ → ℕ → Type 0
IsLiteral n k = (0 < n) × (n < 1000000000000000) × (k < 23)

-- Floating-point arithmetic at finite values, which the engine implements. `decimal n k` is the
-- literal n / 10 ^ k.
pub record Floats : Type 1 where
  pub Float : Type 0
  pub of_ℤ : ℤ → Float
  pub decimal : ℕ → ℕ → Float
  pub mul : Float → Float → Float
  pub div : Float → Float → Float
  pub pow10 : ℤ → Float
  pub round : Float → ℤ
  pub is_positive : Float → Bool
  pub decimal-positive : (n k : ℕ) → IsLiteral n k → is_positive (decimal n k) ≡ true
  pub round-mul-nonneg :
      (n : ℤ) (f : Float) → pos 0 ≤ℤ n → is_positive f ≡ true → pos 0 ≤ℤ round (mul (of_ℤ n) f)
  pub div-positive :
      (n k m l : ℕ)
      → IsLiteral n k
      → IsLiteral m l
      → is_positive (div (decimal n k) (decimal m l)) ≡ true
