-- ===== src/Infra/Seed/Rng/Draws.antt =====
-- Draws in range, and shuffles that lose nothing.
use money_across_borders.Base.{
  ℕ, zero, suc, ◌-◌, ◌<◌, ◌≤◌, ℤ, pos, negsuc, pos_part, neg_part, ◌+ℤ◌, ◌-ℤ◌, ◌≤ℤ◌, int_laws,
  Option, none, some, List, [], ◌∷◌, length, get_elem?, set, weigh, weigh-set, ◌≡◌, refl, ◌∙◌, ap,
  arith,
}
use money_across_borders.Domain.Errors.{ok, err}
use money_across_borders.Domain.Numbers.{Floats}
use money_across_borders.Infra.Seed.Run.{Run, ◌>>=◌}
use money_across_borders.Infra.Seed.Arithmetic.{Arithmetic, two_32, two_53}
use money_across_borders.Infra.Seed.Rng.{mix, advance, next, next_int, swap, shuffle_from, shuffle}

mix_lt : (s : ℕ) → mix s < two_32
unfolding mix
mix_lt s = omega arith

get_elem?-set :
    {A : Type 0} (xs : List A) (i j : ℕ) (x y : A)
    → get_elem? xs i ≡ some x
    → get_elem? xs j ≡ some y
    → get_elem? (set xs i y) j ≡ some y
get_elem?-set [] i j x y hi hj = cc
get_elem?-set (z ∷ xs) zero zero x y hi hj = refl
get_elem?-set (z ∷ xs) zero (suc j) x y hi hj = hj
get_elem?-set (z ∷ xs) (suc i) zero x y hi hj = hj
get_elem?-set (z ∷ xs) (suc i) (suc j) x y hi hj = get_elem?-set xs i j x y hi hj

weigh-swap : {A : Type 0} (f : A → ℕ) (i j : ℕ) (xs : List A) → weigh f (swap i j xs) ≡ weigh f xs
unfolding swap
weigh-swap {A = A} f i j xs = go (get_elem? xs i) (get_elem? xs j) refl refl
  where
    go :
        (o p : Option A)
        → get_elem? xs i ≡ o
        → get_elem? xs j ≡ p
        → weigh f
            (elim o [ none ↦ xs | some x ↦ elim p [ none ↦ xs | some y ↦ set (set xs i y) j x ] ])
          ≡ weigh f xs
    go none p hi hj = refl
    go (some x) none hi hj = refl
    go (some x) (some y) hi hj = omega (
      arith,
      weigh-set f xs i y x hi,
      weigh-set f (set xs i y) j x y (get_elem?-set xs i j x y hi hj),
    )

neg_part_zero : (a : ℤ) → pos 0 ≤ℤ a → neg_part a ≡ 0
neg_part_zero (pos n) h = refl
neg_part_zero (negsuc n) h = omega (arith, h)

pos_of_nonneg : (a : ℤ) → pos 0 ≤ℤ a → a ≡ pos (pos_part a)
pos_of_nonneg (pos n) h = refl
pos_of_nonneg (negsuc n) h = absurd (omega (arith, h))

bind_ok :
    {A B : Type 0} {a : A} {t : ℕ} (m : Run ℕ A) (f : A → Run ℕ B) (s : ℕ)
    → m s ≡ ok (a, t)
    → (m >>= f) s ≡ f a t
bind_ok m f s e = ap (λ r. elim r [ err x ↦ err x | ok r ↦ f r.0 r.1 ]) e

module _ (F : Floats) (M : Arithmetic F) where
  open F use {of_ℤ, mul, div}
  open M use {floor, floor-fraction-nonneg, floor-fraction-lt}

  -- The whole number that a state gives below a bound.
  abbrev drawn : ℕ → ℕ → ℤ
  drawn s n = floor (mul (div (of_ℤ (pos (mix (advance s)))) (of_ℤ (pos two_32))) (of_ℤ (pos n)))

  -- For bounds in order whose distance is below 2 ^ 53 - 1, a draw of an integer returns one
  -- from the lower bound to the upper, both included, and the generator has advanced by one
  -- state.
  pub next_int_bounds :
      (lo hi : ℤ) (s : ℕ)
      → lo ≤ℤ hi
      → pos_part (hi -ℤ lo +ℤ pos 1) < two_53
      → (n : ℤ) × (next_int F M lo hi s ≡ ok (n, advance s)) × (lo ≤ℤ n) × (n ≤ℤ hi)
  unfolding next_int next
  next_int_bounds lo hi s h small =
      let spread = hi -ℤ lo +ℤ pos 1 in
      let k = pos_part spread in
      let nonneg : pos 0 ≤ℤ spread = omega int_laws in
      let none_below = neg_part_zero spread nonneg in
      let fraction = mix (advance s) in
      let least = floor-fraction-nonneg fraction k (mix_lt (advance s)) small in
      let most = floor-fraction-lt fraction k (mix_lt (advance s)) (omega int_laws) small in
      (
        drawn s k +ℤ lo,
        ap
            (λ n. ok (
              floor (mul (div (of_ℤ (pos fraction)) (of_ℤ (pos two_32))) (of_ℤ n)) +ℤ lo,
              advance s,
            ))
            (pos_of_nonneg spread nonneg),
        omega int_laws,
        omega int_laws,
      )

  -- A draw below a length that is an index, at a list that is not too long.
  index_drawn :
      (n s : ℕ)
      → suc n < two_53
      → (i : ℕ) × (next_int F M (pos 0) (pos n) s ≡ ok (pos i, advance s)) × (i ≤ n)
  index_drawn n s h =
      let (v, e, least, most) =
        next_int_bounds (pos 0) (pos n) s (omega arith)
          (omega (int_laws, h, neg_part_zero (pos n -ℤ pos 0 +ℤ pos 1) (omega int_laws))) in
      (
        pos_part v,
        e ∙ ap (λ z. ok (z, advance s)) (pos_of_nonneg v least),
        omega (int_laws, neg_part_zero v least),
      )

  weigh-shuffle_from :
      {A : Type 0} (i : ℕ) (xs : List A) (s : ℕ)
      → suc i < two_53
      → (ys : List A) × (t : ℕ) × (shuffle_from F M i xs s ≡ ok (ys, t))
        × ((f : A → ℕ) → weigh f ys ≡ weigh f xs)
  unfolding shuffle_from
  weigh-shuffle_from zero xs s h = (xs, s, refl, λ f. refl)
  weigh-shuffle_from (suc i) xs s h =
      let (j, e, bound) = index_drawn (suc i) s h in
      let (ys, t, rest, weights) =
        weigh-shuffle_from i (swap (suc i) j xs) (advance s) (omega (arith, h)) in
      (
        ys,
        t,
        bind_ok (next_int F M (pos 0) (pos (suc i)))
              (λ v. shuffle_from F M i (swap (suc i) (pos_part v) xs)) s e
            ∙ rest,
        λ f. weights f ∙ weigh-swap f (suc i) j xs,
      )

  -- A shuffle of fewer than 2 ^ 53 elements returns, and what it returns has the same sum of
  -- every weight of the elements.
  pub weigh-shuffle :
      {A : Type 0} (xs : List A) (s : ℕ)
      → length xs < two_53
      → (ys : List A) × (t : ℕ) × (shuffle F M xs s ≡ ok (ys, t))
        × ((f : A → ℕ) → weigh f ys ≡ weigh f xs)
  unfolding shuffle
  weigh-shuffle xs s h = weigh-shuffle_from (length xs - 1) xs s (omega (arith, h))
