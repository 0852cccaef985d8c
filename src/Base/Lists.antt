-- ===== src/Base/Lists.antt =====
-- Lists over the native numbers.
use Prim.Native.Nat.{ℕ, zero, suc, ◌+◌}
use mathlib.Core.Path.{◌≡◌, refl}
use mathlib.Core.Option.{Option, none, some}
use mathlib.Core.List.{List, [], ◌∷◌, ◌++◌}
use native.Mathlib.Omega.{arith}

module _ {ℓ} {A : Type ℓ} where
  abbrev pub length : List A → ℕ
  length [] = 0
  length (x ∷ xs) = suc (length xs)

  -- `xs.slice(0, n)`
  abbrev pub take : ℕ → List A → List A
  take zero xs = []
  take (suc n) [] = []
  take (suc n) (x ∷ xs) = x ∷ take n xs

  pub length-append : (xs ys : List A) → length (xs ++ ys) ≡ length xs + length ys
  length-append [] ys = omega arith
  length-append (x ∷ xs) ys = omega (arith, length-append xs ys)

  abbrev pub get_elem? : List A → ℕ → Option A
  get_elem? [] i = none
  get_elem? (x ∷ xs) zero = some x
  get_elem? (x ∷ xs) (suc i) = get_elem? xs i

  -- A write out of bounds changes nothing.
  abbrev pub set : List A → ℕ → A → List A
  set [] i v = []
  set (x ∷ xs) zero v = v ∷ xs
  set (x ∷ xs) (suc i) v = x ∷ set xs i v

  -- The sum of a weight over a list.
  abbrev pub weigh : (A → ℕ) → List A → ℕ
  weigh f [] = 0
  weigh f (x ∷ xs) = f x + weigh f xs

  pub weigh-set :
      (f : A → ℕ) (xs : List A) (i : ℕ) (v old : A)
      → get_elem? xs i ≡ some old
      → weigh f (set xs i v) + f old ≡ weigh f xs + f v
  weigh-set f [] i v old h = cc
  weigh-set f (x ∷ xs) zero v old h = ground arith
  weigh-set f (x ∷ xs) (suc i) v old h = omega (arith, weigh-set f xs i v old h)

  -- `n` copies of an element
  abbrev pub replicate : ℕ → A → List A
  replicate zero x = []
  replicate (suc n) x = x ∷ replicate n x

  pub weigh-replicate : (f : A → ℕ) (n : ℕ) (x : A) → f x ≡ 0 → weigh f (replicate n x) ≡ 0
  weigh-replicate f zero x h = refl
  weigh-replicate f (suc n) x h = omega (arith, weigh-replicate f n x h)
