-- ===== src/Infra/Seed/Arithmetic.antt =====
-- What the pipeline does with floats beyond the domain: sums, floors and comparisons.
use money_across_borders.Base.{ℕ, ◌-◌, ◌<◌, ℤ, pos, ◌≤ℤ◌, Bool}
use money_across_borders.Domain.Numbers.{Floats}

-- 2 ^ 32 and 2 ^ 53
abbrev pub two_32 : ℕ
two_32 = 4294967296

abbrev pub two_53 : ℕ
two_53 = 9007199254740992

module _ (F : Floats) where
  open F use {Float, of_ℤ, mul, div}

  -- The laws hold of doubles, which round to nearest. A fraction t / 2 ^ 32 is exact, and its product
  -- with an integer below 2 ^ 53 rounds to a number below that integer.
  pub record Arithmetic : Type 0 where
    pub add : Float → Float → Float
    pub sub : Float → Float → Float
    pub floor : Float → ℤ
    pub is_at_most : Float → Float → Bool
    pub floor-fraction-nonneg :
        (t n : ℕ)
        → t < two_32
        → n < two_53
        → pos 0 ≤ℤ floor (mul (div (of_ℤ (pos t)) (of_ℤ (pos two_32))) (of_ℤ (pos n)))
    pub floor-fraction-lt :
        (t n : ℕ)
        → t < two_32
        → 0 < n
        → n < two_53
        → floor (mul (div (of_ℤ (pos t)) (of_ℤ (pos two_32))) (of_ℤ (pos n))) ≤ℤ pos (n - 1)
