-- ===== src/Infra/Seed/Config/Valid.antt =====
-- What the validation of the configuration accepts.
use money_across_borders.Base.{
  String, ℤ, pos, ◌≤ℤ◌, leb_ℤ, Bool, true, false, not, ◌&&◌, ◌||◌, List, [], ◌∷◌, All, ◌≡◌, refl,
  ◌≢◌, sym, arith, filter, if◌then◌else◌,
}
use money_across_borders.Domain.Errors.{DomainError, Result, ok, err, ◌>>◌, throw_if}
use money_across_borders.Domain.Numbers.{Floats}
use money_across_borders.Domain.Currency.{supported_codes}
use money_across_borders.Infra.Seed.Arithmetic.{Arithmetic}
use money_across_borders.Infra.Seed.Rng.{Weighted}
use money_across_borders.Infra.Seed.Types.{SeedConfig}
use money_across_borders.Infra.Seed.Wallets.{active_currencies}
use money_across_borders.Infra.Seed.Config.{
  SeedConfigOverrides, is_whole, contains, every_is_off, check_currencies, validate_config,
  merge_config, resolve_seed_config,
}

passed_guard :
    (b : Bool) (e : DomainError) (r : Result (Unit {0}))
    → (throw_if b e >> r) ≡ ok tt
    → (b ≡ false) × (r ≡ ok tt)
passed_guard true e r h = absurd (cc h)
passed_guard false e r h = (refl, h)

passed_both : (r q : Result (Unit {0})) → (r >> q) ≡ ok tt → (r ≡ ok tt) × (q ≡ ok tt)
passed_both (err e) q h = absurd (cc h)
passed_both (ok u) q h = (refl, h)

passed_last : (b : Bool) (e : DomainError) → throw_if b e ≡ ok tt → b ≡ false
passed_last true e h = absurd (cc h)
passed_last false e h = refl

false_of_or : (b c : Bool) → (b || c) ≡ false → c ≡ false
false_of_or true c h = absurd (cc h)
false_of_or false c h = h

true_of_not : (b : Bool) → not b ≡ false → b ≡ true
true_of_not true h = refl
true_of_not false h = absurd (cc h)

positive : (a : ℤ) → leb_ℤ a (pos 0) ≡ false → pos 1 ≤ℤ a
positive a h = ground arith

module _ (F : Floats) (M : Arithmetic F) where
  open F use {Float, of_ℤ}
  open M use {is_at_most}

  abbrev IsSupported : Weighted Float String → Type 0
  IsSupported e = contains e.value supported_codes ≡ true

  check_currencies_passed :
      (es : List (Weighted Float String)) → check_currencies F M es ≡ ok tt → All IsSupported es
  unfolding check_currencies
  check_currencies_passed [] h = tt
  check_currencies_passed (e ∷ es) h =
      let (supported, rest) =
        passed_guard (not (contains e.value supported_codes)) _ (check_currencies F M es) h in
      (true_of_not (contains e.value supported_codes) supported, check_currencies_passed es rest)

  none_active :
      (es : List (Weighted Float String))
      → filter (λ e. not (is_at_most e.weight (of_ℤ (pos 0)))) es ≡ []
      → every_is_off F M es ≡ true
  none_active [] h = refl
  none_active (e ∷ es) h = go (is_at_most e.weight (of_ℤ (pos 0))) (none_active es) h
    where
      go :
          (b : Bool)
          → (filter (λ d. not (is_at_most d.weight (of_ℤ (pos 0)))) es ≡ []
              → every_is_off F M es ≡ true)
          → (if not b
              then e ∷ filter (λ d. not (is_at_most d.weight (of_ℤ (pos 0)))) es
              else filter (λ d. not (is_at_most d.weight (of_ℤ (pos 0)))) es)
            ≡ []
          → (b && every_is_off F M es) ≡ true
      go true off k = off k
      go false off k = absurd (cc k)

  validate_config_passed :
      (o : SeedConfigOverrides) (c : SeedConfig Float)
      → validate_config F M o c ≡ ok tt
      → (pos 1 ≤ℤ c.customers)
        × (pos 1 ≤ℤ c.date_range_days)
        × All IsSupported c.currency_distribution
        × (active_currencies F M c ≢ [])
  unfolding validate_config active_currencies
  validate_config_passed o c h =
      let (seed, h0) = passed_guard (not (is_whole o.seed)) _ _ h in
      let (customers, h1) =
        passed_guard (not (is_whole o.customers) || leb_ℤ c.customers (pos 0)) _ _ h0 in
      let (days, h2) =
        passed_guard (not (is_whole o.date_range_days) || leb_ℤ c.date_range_days (pos 0)) _ _ h1 in
      let (supported, h3) = passed_both (check_currencies F M c.currency_distribution) _ h2 in
      let on = passed_last (every_is_off F M c.currency_distribution) _ h3 in
      (
        positive c.customers (false_of_or _ _ customers),
        positive c.date_range_days (false_of_or _ _ days),
        check_currencies_passed c.currency_distribution supported,
        λ e. absurd (cc (on, none_active c.currency_distribution e)),
      )

  -- A configuration that the overrides resolve to is the one they merge to, and it has at least
  -- one customer, a range of at least one day, only supported currencies, and a currency of a
  -- weight that is not zero or less.
  pub resolve_seed_config_valid :
      (o : SeedConfigOverrides) (c : SeedConfig Float)
      → resolve_seed_config F M o ≡ ok c
      → (c ≡ merge_config F M o)
        × (pos 1 ≤ℤ c.customers)
        × (pos 1 ≤ℤ c.date_range_days)
        × All (λ e. contains e.value supported_codes ≡ true) c.currency_distribution
        × (active_currencies F M c ≢ [])
  unfolding resolve_seed_config
  resolve_seed_config_valid o c h = go (validate_config F M o (merge_config F M o)) refl h
    where
      go :
          (r : Result (Unit {0}))
          → validate_config F M o (merge_config F M o) ≡ r
          → (r >> ok (merge_config F M o)) ≡ ok c
          → (c ≡ merge_config F M o)
            × (pos 1 ≤ℤ c.customers)
            × (pos 1 ≤ℤ c.date_range_days)
            × All (λ e. contains e.value supported_codes ≡ true) c.currency_distribution
            × (active_currencies F M c ≢ [])
      go (err e) v k = absurd (cc k)
      go (ok u) v k =
          let same : merge_config F M o ≡ c = cc k in
          let (customers, days, supported, active) =
            rw same at (validate_config_passed o (merge_config F M o) v) in
          (sym same, customers, days, supported, active)
