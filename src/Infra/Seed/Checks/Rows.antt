-- ===== src/Infra/Seed/Checks/Rows.antt =====
-- Lists of rows: what holds of all of them, and keys that differ.
use money_across_borders.Base.{
  String, Bool, true, false, not, ◌&&◌, is_same, List, [], ◌∷◌, ◌++◌, map, filter, All, ◌≡◌, refl,
  sym, ◌∙◌, arith,
}
use money_across_borders.Infra.Seed.Checks.{every}

module _ {A : Type 0} where
  pub every_if_all : (p : A → Bool) → ((x : A) → p x ≡ true) → (xs : List A) → every p xs ≡ true
  every_if_all p h [] = refl
  every_if_all p h (x ∷ xs) = rw (h x) (every_if_all p h xs)

  pub every-All : (p : A → Bool) (xs : List A) → All (λ x. p x ≡ true) xs → every p xs ≡ true
  every-All p [] h = refl
  every-All p (x ∷ xs) h = rw h.0 (every-All p xs h.1)

  pub All-append : (P : A → Type 0) (xs ys : List A) → All P xs → All P ys → All P (xs ++ ys)
  All-append P [] ys h k = k
  All-append P (x ∷ xs) ys h k = (h.0, All-append P xs ys h.1 k)

  pub All-filter : (P : A → Type 0) (p : A → Bool) (xs : List A) → All P xs → All P (filter p xs)
  All-filter P p [] h = tt
  All-filter P p (x ∷ xs) h = ground (arith, All-filter P p xs h.1)

  pub All-map :
      {B : Type 0} (P : B → Type 0) (f : A → B) (xs : List A)
      → All (λ x. P (f x)) xs
      → All P (map f xs)
  All-map P f [] h = tt
  All-map P f (x ∷ xs) h = (h.0, All-map P f xs h.1)

  pub All-agree : (P Q : A → Type 0) → ((x : A) → P x → Q x) → (xs : List A) → All P xs → All Q xs
  All-agree P Q f [] h = tt
  All-agree P Q f (x ∷ xs) h = (f x h.0, All-agree P Q f xs h.1)

  -- No key twice.
  abbrev pub Distinct : (A → String) → List A → Type 0
  Distinct key [] = Unit
  Distinct key (x ∷ xs) = All (λ y. ¬ (key x ≡ key y)) xs × Distinct key xs

left_true : (b c : Bool) → (b && c) ≡ true → b ≡ true
left_true true c h = refl
left_true false c h = absurd (cc h)

right_true : (b c : Bool) → (b && c) ≡ true → c ≡ true
right_true true c h = h
right_true false c h = absurd (cc h)

differs : (a b : String) → not (is_same a b) ≡ true → ¬ (a ≡ b)
differs a b h = ground arith

module _ {A : Type 0} (key : A → String) where
  abbrev pub is_distinct : List A → Bool
  is_distinct [] = true
  is_distinct (x ∷ xs) = every (λ y. not (is_same (key x) (key y))) xs && is_distinct xs

  pub is_distinct-Distinct : (xs : List A) → is_distinct xs ≡ true → Distinct key xs
  is_distinct-Distinct [] h = tt
  is_distinct-Distinct (x ∷ xs) h = (
    others xs (left_true _ _ h),
    is_distinct-Distinct xs (right_true (every (λ y. not (is_same (key x) (key y))) xs) _ h),
  )
    where
      others :
          (ys : List A)
          → every (λ y. not (is_same (key x) (key y))) ys ≡ true
          → All (λ y. ¬ (key x ≡ key y)) ys
      others [] k = tt
      others (y ∷ ys) k = (
        differs (key x) (key y) (left_true _ _ k),
        others ys (right_true (not (is_same (key x) (key y))) _ k),
      )

  pub Distinct-map :
      (f : A → A)
      → ((x : A) → key (f x) ≡ key x)
      → (xs : List A) → Distinct key (map f xs)
      → Distinct key xs
  Distinct-map f same [] h = tt
  Distinct-map f same (x ∷ xs) h = (others xs h.0, Distinct-map f same xs h.1)
    where
      others :
          (ys : List A)
          → All (λ y. ¬ (key (f x) ≡ key y)) (map f ys)
          → All (λ y. ¬ (key x ≡ key y)) ys
      others [] k = tt
      others (y ∷ ys) k = (λ e. k.0 (same x ∙ e ∙ sym (same y)), others ys k.1)

  -- The keys of the second part are not those of the first.
  pub apart :
      (xs ys : List A) → Distinct key (xs ++ ys) → All (λ y. All (λ x. ¬ (key x ≡ key y)) xs) ys
  apart [] ys h = everywhere ys
    where
      everywhere : (zs : List A) → All (λ z. Unit) zs
      everywhere [] = tt
      everywhere (z ∷ zs) = (tt, everywhere zs)
  apart (x ∷ xs) ys h = joined ys (last_part xs ys h.0) (apart xs ys h.1)
    where
      last_part :
          (us vs : List A)
          → All (λ y. ¬ (key x ≡ key y)) (us ++ vs)
          → All (λ y. ¬ (key x ≡ key y)) vs
      last_part [] vs k = k
      last_part (u ∷ us) vs k = last_part us vs k.1

      joined :
          (zs : List A)
          → All (λ y. ¬ (key x ≡ key y)) zs
          → All (λ y. All (λ u. ¬ (key u ≡ key y)) xs) zs
          → All (λ y. (¬ (key x ≡ key y)) × All (λ u. ¬ (key u ≡ key y)) xs) zs
      joined [] k l = tt
      joined (z ∷ zs) k l = ((k.0, l.0), joined zs k.1 l.1)
