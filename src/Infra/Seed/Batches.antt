-- ===== src/Infra/Seed/Batches.antt =====
-- `chunk` of src/infra/seed/persistence/batch-writer.ts, which every insert of the writer loops over.
use money_across_borders.Base.{
  ℕ, zero, suc, ◌≤◌, ◌<◌, List, [], ◌∷◌, ◌++◌, length, take, All, ◌≡◌, refl, ap, ◌∙◌, arith,
}

module _ {A : Type 0} where
  abbrev drop : ℕ → List A → List A
  drop zero xs = xs
  drop (suc n) [] = []
  drop (suc n) (x ∷ xs) = drop n xs

  -- The turns that are left, from the items that are left.
  unfoldable chunk_from : ℕ → ℕ → List A → List (List A)
  chunk_from zero size items = []
  chunk_from (suc n) size [] = []
  chunk_from (suc n) size (x ∷ xs) = take size (x ∷ xs) ∷ chunk_from n size (drop size (x ∷ xs))

  -- With a size above zero there are at most as many turns as items.
  unfoldable pub chunk : List A → ℕ → List (List A)
  unfolding chunk_from
  chunk items size = chunk_from (length items) size items

  abbrev pub flatten : List (List A) → List A
  flatten [] = []
  flatten (c ∷ cs) = c ++ flatten cs

  take-drop : (n : ℕ) (xs : List A) → take n xs ++ drop n xs ≡ xs
  take-drop zero xs = refl
  take-drop (suc n) [] = refl
  take-drop (suc n) (x ∷ xs) = ap (λ ys. x ∷ ys) (take-drop n xs)

  length-take : (n : ℕ) (xs : List A) → length (take n xs) ≤ n
  length-take zero xs = omega arith
  length-take (suc n) [] = omega arith
  length-take (suc n) (x ∷ xs) = omega (arith, length-take n xs)

  length-drop : (n : ℕ) (xs : List A) → length (drop n xs) ≤ length xs
  length-drop zero xs = omega arith
  length-drop (suc n) [] = omega arith
  length-drop (suc n) (x ∷ xs) = omega (arith, length-drop n xs)

  chunked :
      (n size : ℕ) (items : List A)
      → length items ≤ n
      → (flatten (chunk_from n (suc size) items) ≡ items)
        × All (λ c. length c ≤ suc size) (chunk_from n (suc size) items)
  unfolding chunk_from
  chunked zero size [] h = (refl, tt)
  chunked zero size (x ∷ xs) h = absurd (omega (arith, h))
  chunked (suc n) size [] h = (refl, tt)
  chunked (suc n) size (x ∷ xs) h =
      let (flat, small) = chunked n size (drop size xs) (omega (arith, h, length-drop size xs)) in
      (
        ap (λ ys. x ∷ take size xs ++ ys) flat ∙ ap (λ ys. x ∷ ys) (take-drop size xs),
        (omega (arith, length-take size xs), small),
      )

  -- For a batch size above zero, the batches of a list of rows, one after the other, are the
  -- list, and none is longer than the size.
  pub flatten-chunk :
      (items : List A) (size : ℕ)
      → 0 < size
      → (flatten (chunk items size) ≡ items) × All (λ c. length c ≤ size) (chunk items size)
  unfolding chunk
  flatten-chunk items zero h = absurd (omega (arith, h))
  flatten-chunk items (suc size) h = chunked (length items) size items (omega arith)
