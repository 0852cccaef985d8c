-- ===== src/Tests/Draws.antt =====
-- Arithmetic of the fixed-point numbers, and the draws of the seed pipeline at it.
use mathlib.Core.Path.{subst}
use money_across_borders.Base.{
  ℕ, zero, suc, ◌-◌, ◌*◌, ◌/◌, ◌<◌, ◌≤◌, ℤ, pos, negsuc, ◌+ℤ◌, ◌-ℤ◌, ◌≤ℤ◌, leb_ℤ, ◌≡◌, ap, ◌∙◌, sym,
  arith, List, [], ◌∷◌, weigh,
}
use money_across_borders.Infra.Seed.Arithmetic.{Arithmetic, two_32, two_53}
use money_across_borders.Domain.Errors.{ok}
use money_across_borders.Infra.Seed.Rng.{advance, next_int, shuffle}
use money_across_borders.Infra.Seed.Rng.Draws.{next_int_bounds, weigh-shuffle}
use money_across_borders.Tests.Samples.{fixed_point, unit, at_least_one, times, over, scaled}

abbrev floor_of : ℤ → ℤ
floor_of (pos a) = pos (a / unit)
floor_of (negsuc a) = negsuc (a / unit)

at_least_one_lt : (t : ℕ) → t < two_32 → at_least_one t < two_32
at_least_one_lt zero h = omega arith
at_least_one_lt (suc t) h = h

over_fraction : (t : ℕ) → over (scaled (pos t)) (scaled (pos two_32)) ≡ pos (at_least_one t)
over_fraction t = ap (λ n. pos (at_least_one n)) (omega arith)

floor_times : (f n : ℕ) → floor_of (times (pos f) (scaled (pos n))) ≡ pos (f * n / unit)
floor_times f n = ap (λ m. pos (m / unit)) (omega arith)

below : (f n : ℕ) → f < two_32 → 0 < n → f * n / unit ≤ n - 1
below f n h p = grind arith

pub drawn_nonneg :
    (t n : ℕ)
    → t < two_32
    → n < two_53
    → pos 0 ≤ℤ floor_of (times (over (scaled (pos t)) (scaled (pos two_32))) (scaled (pos n)))
drawn_nonneg t n h k = omega arith

pub drawn_lt :
    (t n : ℕ)
    → t < two_32
    → 0 < n
    → n < two_53
    → floor_of (times (over (scaled (pos t)) (scaled (pos two_32))) (scaled (pos n))) ≤ℤ pos (n - 1)
drawn_lt t n h p k =
    let bound = below (at_least_one t) n (at_least_one_lt t h) p in
    let value =
      ap (λ f. floor_of (times f (scaled (pos n)))) (over_fraction t)
      ∙ floor_times (at_least_one t) n in
    subst (λ z. z ≤ℤ pos (n - 1)) (sym value) (omega (arith, bound))

abbrev pub arithmetic : Arithmetic fixed_point
arithmetic = record {
  add = λ a b. a +ℤ b;
  sub = λ a b. a -ℤ b;
  floor = floor_of;
  is_at_most = leb_ℤ;
  floor-fraction-nonneg = drawn_nonneg;
  floor-fraction-lt = drawn_lt;
}

next_int_bounds_example :
    (n : ℤ) × (next_int fixed_point arithmetic (pos 3) (pos 12) 42 ≡ ok (n, advance 42))
    × (pos 3 ≤ℤ n)
    × (n ≤ℤ pos 12)
unfolding ◌+ℤ◌ ◌-ℤ◌
next_int_bounds_example =
    next_int_bounds fixed_point arithmetic (pos 3) (pos 12) 42 (omega arith) (omega arith)

weigh-shuffle_example :
    (ys : List ℕ) × (t : ℕ) × (shuffle fixed_point arithmetic (1 ∷ 2 ∷ 3 ∷ []) 42 ≡ ok (ys, t))
    × ((f : ℕ → ℕ) → weigh f ys ≡ weigh f (1 ∷ 2 ∷ 3 ∷ []))
weigh-shuffle_example = weigh-shuffle fixed_point arithmetic (1 ∷ 2 ∷ 3 ∷ []) 42 (omega arith)
