-- ===== src/Infra/Seed/Config.antt =====
-- The rest of src/infra/seed/config/seed-config.ts, with the scenarios.
pub mod Valid
pub mod Ranges
use Prim.Native.String.{◌++◌ as append}
use money_across_borders.Base.{
  ℕ, String, ℤ, pos, ◌+ℤ◌, leb_ℤ, Bool, true, false, not, ◌&&◌, ◌||◌, Option, none, some, List, [],
  ◌∷◌, length, is_same, is_zero, if◌then◌else◌,
}
use money_across_borders.Domain.Errors.{Result, ok, err, ◌>>=◌, ◌>>◌, throw_if, invalid}
use money_across_borders.Domain.Numbers.{Number, integer, fractional, Floats}
use money_across_borders.Domain.Currency.{supported_codes}
use money_across_borders.Infra.Seed.Arithmetic.{Arithmetic}
use money_across_borders.Infra.Seed.Rng.{Weighted, sum_weights}
use money_across_borders.Infra.Seed.Wallets.{min_ℤ, max_ℤ, active_currencies}
use money_across_borders.Infra.Seed.Types.{
  SeedConfig, Range, ScenarioName, plain, high_contention, verified, pending, rejected,
  ActivityProfile, heavy, normal, low, completed, rejected_compliance, rejected_insufficient_funds,
  failed, zero_tier, low_tier, medium_tier, high_tier,
}

pub record SeedConfigOverrides : Type 0 where
  pub seed : Option Number
  pub customers : Option Number
  pub date_range_days : Option Number
  pub reset : Option Bool
  pub scenario : Option ScenarioName
  pub wallets_target : Option Number
  pub remittances_target : Option Number

-- `Number.isInteger`, where there is a number.
abbrev pub is_whole : Option Number → Bool
is_whole none = true
is_whole (some (integer n)) = true
is_whole (some fractional) = false

-- The integer of an override. The validation refuses every other number but the targets, at which the
-- model is not defined for another number.
abbrev pub whole : Option Number → Option ℤ
whole none = none
whole (some (integer n)) = some n
whole (some fractional) = none

abbrev pub or_else : {A : Type 0} → Option A → A → A
or_else none b = b
or_else (some a) b = a

unfoldable pub clamp : ℤ → ℤ → ℤ → ℤ
clamp value min max = min_ℤ (max_ℤ value min) max

abbrev pub contains : String → List String → Bool
contains c [] = false
contains c (d ∷ ds) = is_same d c || contains c ds

module _ (F : Floats) where
  open F use {Float, of_ℤ, decimal}

  abbrev weighted : {A : Type 0} → A → ℕ → Weighted Float A
  weighted a percent = record { value = a; weight = decimal percent 2 }

  abbrev from_to : ℕ → ℕ → Range
  from_to a b = record { min = pos a; max = pos b }

  -- `DEFAULT_SEED_CONFIG`
  unfoldable pub default_seed_config : SeedConfig Float
  default_seed_config = record {
    seed = pos 42;
    scenario = plain;
    customers = pos 10000;
    date_range_days = pos 90;
    reset = false;
    kyc_distribution = weighted verified 80 ∷ weighted pending 10 ∷ weighted rejected 10 ∷ [];
    activity_distribution = weighted heavy 5 ∷ weighted normal 70 ∷ weighted low 25 ∷ [];
    currency_distribution =
        weighted "BRL" 55
        ∷ weighted "USD" 30
        ∷ weighted "EUR" 15
        ∷ (record { value = "GBP"; weight = of_ℤ (pos 0) })
        ∷ [];
    remittance_status_distribution =
        weighted completed 92
        ∷ weighted rejected_compliance 3
        ∷ weighted rejected_insufficient_funds 3
        ∷ weighted failed 2
        ∷ [];
    wallets_per_customer = from_to 1 3;
    heavy_remittances = from_to 40 150;
    normal_remittances = from_to 3 15;
    low_remittances = from_to 0 2;
    balance_tier_distribution =
        weighted zero_tier 10
        ∷ weighted low_tier 40
        ∷ weighted medium_tier 35
        ∷ weighted high_tier 15
        ∷ [];
    low_balances = from_to 1000 50000;
    medium_balances = from_to 50000 2000000;
    high_balances = from_to 2000000 50000000;
    fx_jitter = decimal 5 3;
    idempotency_demo_ratio = decimal 1 2;
    contention_shared_accounts = 10;
    contention_intents = 2000;
    contention_amount_range = from_to 1000 20000;
  }

  -- `{ ...config, ...SCENARIOS[scenario] }`
  unfoldable pub with_scenario : ScenarioName → SeedConfig Float → SeedConfig Float
  with_scenario plain config = record config { scenario = plain }
  with_scenario high_contention config = record config {
    scenario = high_contention;
    customers = pos 500;
    low_balances = from_to 1000 50000;
    medium_balances = from_to 50000 2000000;
    high_balances = from_to 2000000 50000000;
  }

  -- `{ ...config, ...directOverrides }`
  abbrev pub with_overrides : SeedConfigOverrides → SeedConfig Float → SeedConfig Float
  with_overrides o config = record config {
    seed = or_else (whole o.seed) config.seed;
    customers = or_else (whole o.customers) config.customers;
    date_range_days = or_else (whole o.date_range_days) config.date_range_days;
    reset = or_else o.reset config.reset;
  }

module _ (F : Floats) (M : Arithmetic F) where
  open F use {Float, of_ℤ, decimal, mul, div, round}
  open M use {add, is_at_most}

  -- `expected > 0 ? target / expected : 1`
  abbrev scale_to : ℤ → Float → Float
  scale_to target expected =
      if is_at_most expected (of_ℤ (pos 0)) then of_ℤ (pos 1) else div (of_ℤ target) expected

  abbrev average : Range → Float
  average r = div (of_ℤ (r.min +ℤ r.max)) (of_ℤ (pos 2))

  unfoldable pub scale_wallets_target : SeedConfig Float → ℤ → Range
  unfolding active_currencies clamp
  scale_wallets_target config target =
      let active = pos (length (active_currencies F M config)) in
      let expected = mul (of_ℤ config.customers) (average config.wallets_per_customer) in
      let scale = scale_to target expected in
      let least = clamp (round (mul (of_ℤ config.wallets_per_customer.min) scale)) (pos 1) active in
      record {
        min = least;
        max = clamp (round (mul (of_ℤ config.wallets_per_customer.max) scale)) least active;
      }

  abbrev is_profile : ActivityProfile → ActivityProfile → Bool
  is_profile heavy heavy = true
  is_profile heavy normal = false
  is_profile heavy low = false
  is_profile normal heavy = false
  is_profile normal normal = true
  is_profile normal low = false
  is_profile low heavy = false
  is_profile low normal = false
  is_profile low low = true

  -- `weightByProfile.get(profile) ?? 0`, where the last entry of a profile counts.
  abbrev weight_of : ActivityProfile → Float → List (Weighted Float ActivityProfile) → Float
  weight_of p found [] = found
  weight_of p found (e ∷ es) = weight_of p (if is_profile e.value p then e.weight else found) es

  unfoldable pub scale_range : Float → Range → Range
  scale_range scale r =
      let least = max_ℤ (pos 0) (round (mul (of_ℤ r.min) scale)) in
      record { min = least; max = max_ℤ least (round (mul (of_ℤ r.max) scale)) }

  -- `a || 1`, of a sum of weights.
  abbrev or_one : Float → Float
  or_one a = if is_at_most a (of_ℤ (pos 0)) && is_at_most (of_ℤ (pos 0)) a then of_ℤ (pos 1) else a

  unfoldable pub expected_remittances : SeedConfig Float → Float
  expected_remittances config =
      let total = or_one (sum_weights F M (of_ℤ (pos 0)) config.activity_distribution) in
      let share = λ (p : ActivityProfile).
        div (weight_of p (of_ℤ (pos 0)) config.activity_distribution) total in
      let part = λ (p : ActivityProfile) (r : Range).
        mul (mul (of_ℤ config.customers) (share p)) (average r) in
      add
        (add (add (of_ℤ (pos 0)) (part heavy config.heavy_remittances))
          (part normal config.normal_remittances))
        (part low config.low_remittances)

  unfoldable pub scale_remittances_target : SeedConfig Float → ℤ → SeedConfig Float
  unfolding expected_remittances scale_range
  scale_remittances_target config target =
      let scale = scale_to target (expected_remittances config) in
      record config {
        heavy_remittances = scale_range scale config.heavy_remittances;
        normal_remittances = scale_range scale config.normal_remittances;
        low_remittances = scale_range scale config.low_remittances;
      }

  -- The loop over the currencies.
  unfoldable pub check_currencies : List (Weighted Float String) → Result (Unit {0})
  unfolding supported_codes
  check_currencies [] = ok tt
  check_currencies (e ∷ es) = do
    throw_if (not (contains e.value supported_codes))
        (invalid (append "currencyDistribution references unsupported currency " e.value))
    check_currencies es

  abbrev pub every_is_off : List (Weighted Float String) → Bool
  every_is_off [] = true
  every_is_off (e ∷ es) = is_at_most e.weight (of_ℤ (pos 0)) && every_is_off es

  -- Of the configuration that the overrides merge to: its numbers are those of the overrides, or
  -- integers of the defaults and the scenario.
  unfoldable pub validate_config : SeedConfigOverrides → SeedConfig Float → Result (Unit {0})
  unfolding check_currencies
  validate_config o config = do
    throw_if (not (is_whole o.seed)) (invalid "--seed must be an integer")
    throw_if (not (is_whole o.customers) || leb_ℤ config.customers (pos 0))
        (invalid "--customers must be a positive integer")
    throw_if (not (is_whole o.date_range_days) || leb_ℤ config.date_range_days (pos 0))
        (invalid "--date-range-days must be a positive integer")
    check_currencies config.currency_distribution
    throw_if (every_is_off config.currency_distribution)
        (invalid "currencyDistribution must have at least one currency with weight > 0")

  abbrev pub with_wallets : Option ℤ → SeedConfig Float → SeedConfig Float
  with_wallets none config = config
  with_wallets (some target) config = record config {
    wallets_per_customer = scale_wallets_target config target;
  }

  abbrev pub with_remittances : Option ℤ → SeedConfig Float → SeedConfig Float
  with_remittances none config = config
  with_remittances (some target) config = scale_remittances_target config target

  -- The configuration before its validation.
  unfoldable pub merge_config : SeedConfigOverrides → SeedConfig Float
  unfolding default_seed_config with_scenario scale_wallets_target scale_remittances_target
  merge_config o = with_remittances (whole o.remittances_target) (
      with_wallets (whole o.wallets_target)
        (with_overrides F o (with_scenario F (or_else o.scenario plain) (default_seed_config F))))

  unfoldable pub resolve_seed_config : SeedConfigOverrides → Result (SeedConfig Float)
  unfolding merge_config validate_config
  resolve_seed_config o = do validate_config o (merge_config o); ok (merge_config o)
