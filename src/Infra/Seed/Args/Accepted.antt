-- ===== src/Infra/Seed/Args/Accepted.antt =====
-- What the parser of the arguments accepts, the configuration accepts.
use money_across_borders.Base.{
  ℕ, Bool, true, ◌&&◌, ◌⊎◌, inl, inr, Bool-cases, String, ℤ, pos, ◌≤ℤ◌, leb_ℤ, false, Option, none,
  some, List, ◌≡◌, refl, ap, ◌∙◌, String_discrete, arith,
}
use money_across_borders.Domain.Errors.{ok}
use money_across_borders.Domain.Numbers.{Number, integer, fractional, Floats}
use money_across_borders.Domain.Currency.{supported_codes}
use money_across_borders.Infra.Seed.Arithmetic.{Arithmetic}
use money_across_borders.Infra.Seed.Types.{SeedConfig, ScenarioName, plain, high_contention}
use money_across_borders.Infra.Seed.Config.{
  SeedConfigOverrides, is_whole, whole, or_else, with_overrides, with_wallets, with_remittances,
  default_seed_config, with_scenario, scale_remittances_target, check_currencies, every_is_off,
  validate_config, merge_config, resolve_seed_config,
}
use money_across_borders.Infra.Seed.Args.{parse_seed_args}
use money_across_borders.Infra.Seed.Args.Positive.{
  IsPositive, ArePositive, parse_seed_args-ArePositive,
}

not_zero : (n : ℤ) → pos 1 ≤ℤ n → leb_ℤ n (pos 0) ≡ false
not_zero n h = ground arith

both : (a b : Bool) → (a && b) ≡ true → (a ≡ true) × (b ≡ true)
both true b h = (refl, h)
both false b h = absurd (cc h)

module _ (F : Floats) (M : Arithmetic F) where
  open F use {Float, of_ℤ, decimal}
  open M use {is_at_most}

  validated :
      (o : SeedConfigOverrides) (c : SeedConfig Float)
      → is_whole o.seed ≡ true
      → is_whole o.customers ≡ true
      → is_whole o.date_range_days ≡ true
      → pos 1 ≤ℤ c.customers
      → pos 1 ≤ℤ c.date_range_days
      → check_currencies F M c.currency_distribution ≡ ok tt
      → every_is_off F M c.currency_distribution ≡ false
      → validate_config F M o c ≡ ok tt
  unfolding validate_config
  validated o c s n d h k supported on =
      rw (s, n, d, not_zero c.customers h, not_zero c.date_range_days k, supported, on) refl

  -- A configuration with the default's currencies, and at least one customer and one day.
  record IsUsable (c : SeedConfig Float) : Type 0 where
    pub customers : pos 1 ≤ℤ c.customers
    pub days : pos 1 ≤ℤ c.date_range_days
    pub currencies : c.currency_distribution ≡ (default_seed_config F).currency_distribution

  scenario-IsUsable : (k : ScenarioName) → IsUsable (with_scenario F k (default_seed_config F))
  unfolding with_scenario default_seed_config
  scenario-IsUsable plain = record {
    customers = omega arith;
    days = omega arith;
    currencies = refl;
  }
  scenario-IsUsable high_contention = record {
    customers = omega arith;
    days = omega arith;
    currencies = refl;
  }

  or_else_positive :
      (n : Option Number) (m : ℤ) → IsPositive n → pos 1 ≤ℤ m → pos 1 ≤ℤ or_else (whole n) m
  or_else_positive none m p q = q
  or_else_positive (some (integer n)) m p q = p
  or_else_positive (some fractional) m p q = q

  overrides-IsUsable :
      (o : SeedConfigOverrides) (c : SeedConfig Float)
      → ArePositive o
      → IsUsable c
      → IsUsable (with_overrides F o c)
  overrides-IsUsable o c p u = record {
    customers = or_else_positive o.customers c.customers p.customers u.customers;
    days = or_else_positive o.date_range_days c.date_range_days p.days u.days;
    currencies = u.currencies;
  }

  wallets-IsUsable :
      (w : Option ℤ) (c : SeedConfig Float) → IsUsable c → IsUsable (with_wallets F M w c)
  wallets-IsUsable none c u = u
  wallets-IsUsable (some target) c u = record {
    customers = u.customers;
    days = u.days;
    currencies = u.currencies;
  }

  remittances-IsUsable :
      (m : Option ℤ) (c : SeedConfig Float) → IsUsable c → IsUsable (with_remittances F M m c)
  unfolding scale_remittances_target
  remittances-IsUsable none c u = u
  remittances-IsUsable (some target) c u = record {
    customers = u.customers;
    days = u.days;
    currencies = u.currencies;
  }

  merge_config-IsUsable : (o : SeedConfigOverrides) → ArePositive o → IsUsable (merge_config F M o)
  unfolding merge_config
  merge_config-IsUsable o p = remittances-IsUsable (whole o.remittances_target) _ (
      wallets-IsUsable (whole o.wallets_target) _
        (overrides-IsUsable o _ p (scenario-IsUsable (or_else o.scenario plain))))

  default_supported : check_currencies F M (default_seed_config F).currency_distribution ≡ ok tt
  unfolding check_currencies default_seed_config supported_codes String_discrete
  default_supported = refl

  default_on :
      is_at_most (decimal 55 2) (of_ℤ (pos 0)) ≡ false
      → every_is_off F M (default_seed_config F).currency_distribution ≡ false
  unfolding default_seed_config
  default_on h = rw h refl

  -- Every number that is given is an integer.
  abbrev pub all_whole : SeedConfigOverrides → Bool
  all_whole o =
      is_whole o.seed
      && (is_whole o.customers
          && (is_whole o.date_range_days
              && (is_whole o.wallets_target && is_whole o.remittances_target)))

  resolves :
      is_at_most (decimal 55 2) (of_ℤ (pos 0)) ≡ false
      → (o : SeedConfigOverrides) → ArePositive o
      → all_whole o ≡ true
      → resolve_seed_config F M o ≡ ok (merge_config F M o)
  unfolding resolve_seed_config
  resolves above o p h =
      let u = merge_config-IsUsable o p in
      let (seed, rest) = both _ _ h in
      let (customers, rest) = both _ _ rest in
      let (days, rest) = both _ _ rest in
      rw
        (validated o (merge_config F M o) seed customers days u.customers u.days
          (ap (check_currencies F M) u.currencies ∙ default_supported)
          (ap (every_is_off F M) u.currencies ∙ default_on above))
        refl

  -- Where the literal 0.55 is not zero or less, arguments that the parser of the seed command
  -- accepts, other than a call for help, resolve to the configuration that they merge to, unless
  -- one of their numbers is infinite.
  pub parsed_args_resolve :
      is_at_most (decimal 55 2) (of_ℤ (pos 0)) ≡ false
      → (rounded : ℕ → Option ℕ) (argv : List String) (o : SeedConfigOverrides)
      → parse_seed_args rounded argv ≡ ok (some o)
      → (resolve_seed_config F M o ≡ ok (merge_config F M o)) ⊎ (all_whole o ≡ false)
  parsed_args_resolve above rounded argv o h = elim (Bool-cases (all_whole o)) [
    | inl w ↦ inl (resolves above o (parse_seed_args-ArePositive rounded argv o h) w)
    | inr w ↦ inr w
  ]
