-- ===== src/Base/Tables.antt =====
-- Arrays that the in-memory repositories keep: `find`, `findIndex` with replacement, and their laws
-- for a key that is a text.
use mathlib.Core.Path.{◌≡◌, refl}
use mathlib.Core.Bool.{Bool, true}
use mathlib.Core.Option.{Option, none, some}
use mathlib.Core.List.{List, [], ◌∷◌}
use native.Mathlib.Omega.{arith}
use Prim.Native.String.{String}
use money_across_borders.Base.Texts.{is_same, if◌then◌else◌}
use money_across_borders.Base.Int.{ℤ, pos, ◌+ℤ◌, int_laws}

module _ {A : Type 0} where
  -- `xs.find(p) ?? null`
  abbrev pub find : (A → Bool) → List A → Option A
  find p [] = none
  find p (x ∷ xs) = if p x then some x else find p xs

  -- `xs.findIndex(p)`, then `push` at -1 and an assignment elsewhere.
  abbrev pub upsert : (A → Bool) → A → List A → List A
  upsert p a [] = a ∷ []
  upsert p a (x ∷ xs) = if p x then a ∷ xs else x ∷ upsert p a xs

  -- `xs.filter(p)`
  abbrev pub filter : (A → Bool) → List A → List A
  filter p [] = []
  filter p (x ∷ xs) = if p x then x ∷ filter p xs else filter p xs

  abbrev pub sum : (A → ℤ) → List A → ℤ
  sum f [] = pos 0
  sum f (x ∷ xs) = f x +ℤ sum f xs

  abbrev pub All : (A → Type 0) → List A → Type 0
  All P [] = Unit
  All P (x ∷ xs) = P x × All P xs

  pub find-All :
      (P : A → Type 0) (p : A → Bool) (xs : List A) (x : A) → All P xs → find p xs ≡ some x → P x
  find-All P p [] x h e = cc
  find-All P p (y ∷ xs) x h e = ground (arith, find-All P p xs x h.1)

  -- What is found passes the test.
  pub find_sound : (p : A → Bool) (xs : List A) (x : A) → find p xs ≡ some x → p x ≡ true
  find_sound p [] x e = cc
  find_sound p (y ∷ xs) x e = ground (arith, find_sound p xs x)

  pub upsert-All :
      (P : A → Type 0) (p : A → Bool) (a : A) (xs : List A) → P a → All P xs → All P (upsert p a xs)
  upsert-All P p a [] h hs = (h, tt)
  upsert-All P p a (x ∷ xs) h hs = ground (arith, upsert-All P p a xs h hs.1)

module _ {A : Type 0} (key : A → String) where
  abbrev pub by_key : String → A → Bool
  by_key k x = is_same (key x) k

  -- What a search by key finds after a save: the saved row at its own key, and all else as before.
  pub find-upsert :
      (k : String) (a : A) (xs : List A)
      → find (by_key k) (upsert (by_key (key a)) a xs)
        ≡ (if is_same (key a) k then some a else find (by_key k) xs)
  find-upsert k a [] = refl
  find-upsert k a (x ∷ xs) = ground (arith, find-upsert k a xs)

  pub sum-upsert :
      (f : A → ℤ) (a old : A) (xs : List A)
      → find (by_key (key a)) xs ≡ some old
      → sum f (upsert (by_key (key a)) a xs) +ℤ f old ≡ sum f xs +ℤ f a
  sum-upsert f a old [] e = cc
  sum-upsert f a old (x ∷ xs) e = grind (int_laws, sum-upsert f a old xs)
