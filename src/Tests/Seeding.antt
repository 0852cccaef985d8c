-- ===== src/Tests/Seeding.antt =====
-- A small seed of the database: three customers, two currencies, the contention scenario.
use money_across_borders.Infra.Seed.Wallets.{active_currencies}
use money_across_borders.Domain.Numbers.{integer}
use money_across_borders.Infra.Seed.Config.{SeedConfigOverrides, merge_config, resolve_seed_config}
use money_across_borders.Infra.Seed.Config.Ranges.{IsRange, HasRanges, resolve_seed_config_ranges}
use money_across_borders.Base.{
  length, true, none, some, ◌≢◌, ◌≤ℤ◌, false, ℕ, ℤ, pos, List, [], ◌∷◌, ◌≡◌, refl, All, map, ◌+ℤ◌,
  ◌-ℤ◌, String_discrete,
}
use money_across_borders.Domain.Errors.{Result, ok, err}
use money_across_borders.Infra.Seed.Rng.{Weighted}
use money_across_borders.Infra.Seed.Types.{
  SeedConfig, SeedWalletRef, high_contention, verified, pending, heavy, normal, completed,
  rejected_insufficient_funds, medium_tier, high_tier, Range,
}
use money_across_borders.Infra.Seed.Dataset.{GeneratedDataset, generate_dataset, clone_treasury}
use money_across_borders.Infra.Seed.Ledger.Posted.{credited, net, post}
use money_across_borders.Infra.Seed.Dataset.Backed.{
  generate_dataset_reconciled, generate_dataset_balances,
}
use money_across_borders.Infra.FxRates.{rate_in}
use money_across_borders.Tests.Samples.{fixed_point, scaled, literal}
use money_across_borders.Tests.Draws.{arithmetic}

abbrev weight : {A : Type 0} → A → ℕ → Weighted ℤ A
weight a n = record { value = a; weight = scaled (pos n) }

abbrev range : ℕ → ℕ → Range
range a b = record { min = pos a; max = pos b }

abbrev config : SeedConfig ℤ
config = record {
  seed = pos 42;
  scenario = high_contention;
  customers = pos 2;
  date_range_days = pos 30;
  reset = false;
  kyc_distribution = weight verified 8 ∷ weight pending 2 ∷ [];
  activity_distribution = weight heavy 1 ∷ weight normal 1 ∷ [];
  currency_distribution = weight "USD" 1 ∷ weight "BRL" 1 ∷ [];
  remittance_status_distribution = weight completed 9 ∷ weight rejected_insufficient_funds 1 ∷ [];
  wallets_per_customer = range 2 2;
  heavy_remittances = range 2 2;
  normal_remittances = range 2 2;
  low_remittances = range 1 1;
  balance_tier_distribution = weight medium_tier 1 ∷ weight high_tier 1 ∷ [];
  low_balances = range 100 1000;
  medium_balances = range 100000 200000;
  high_balances = range 500000 900000;
  fx_jitter = literal 1 2;
  idempotency_demo_ratio = literal 5 1;
  contention_shared_accounts = 1;
  contention_intents = 1;
  contention_amount_range = range 100 500;
}

abbrev treasury : List SeedWalletRef
treasury =
    (record {
      id = "t-usd";
      account_id = "treasury";
      currency = "USD";
      balance = pos 100000000;
      created_at = pos 0;
    })
    ∷ (record {
      id = "t-brl";
      account_id = "treasury";
      currency = "BRL";
      balance = pos 100000000;
      created_at = pos 0;
    })
    ∷ []

abbrev pub same_day : ℤ → ℤ → ℤ → ℤ → ℤ
same_day date hour minute second = date

abbrev nothing : GeneratedDataset ℤ
nothing = record {
  users = [];
  accounts = [];
  customers = [];
  kyc_profiles = [];
  wallets = [];
  ledger_entries = [];
  remittances = [];
  idempotency_records = [];
  contention_intents = [];
  contention_shared_account_ids = [];
  treasury_by_currency = [];
}

abbrev value_of : Result (GeneratedDataset ℤ) → GeneratedDataset ℤ
value_of (ok d) = d
value_of (err e) = nothing

abbrev dataset : GeneratedDataset ℤ
dataset =
    value_of (
      generate_dataset fixed_point arithmetic same_day "hash" config 0 (pos 1700000000000) treasury)

generated :
    generate_dataset fixed_point arithmetic same_day "hash" config 0 (pos 1700000000000) treasury
    ≡ ok dataset
unfolding generate_dataset ◌+ℤ◌ ◌-ℤ◌ String_discrete rate_in
generated = refl

generate_dataset_reconciled_example :
    All (λ w. w.balance ≡ credited w.id dataset.ledger_entries) dataset.wallets
    × (dataset.treasury_by_currency
        ≡ map (post dataset.ledger_entries) (clone_treasury [] treasury))
generate_dataset_reconciled_example =
    generate_dataset_reconciled fixed_point arithmetic same_day "hash" config 0 (pos 1700000000000)
      treasury dataset generated

-- The first remittance, which is from reais to dollars.
generate_dataset_balances_example :
    net "3678829e-7cac-48fa-9458-3484c3727c40" "BRL" dataset.ledger_entries ≡ pos 0
generate_dataset_balances_example =
    generate_dataset_balances fixed_point arithmetic same_day "hash" config 0 (pos 1700000000000)
      treasury dataset generated "3678829e-7cac-48fa-9458-3484c3727c40" "BRL"

-- 25 customers with about 40 wallets.
abbrev overrides : SeedConfigOverrides
overrides = record {
  seed = none;
  customers = some (integer (pos 25));
  date_range_days = none;
  reset = some true;
  scenario = some high_contention;
  wallets_target = some (integer (pos 40));
  remittances_target = some (integer (pos 100));
}

abbrev resolved : SeedConfig ℤ
resolved = merge_config fixed_point arithmetic overrides

passes : resolve_seed_config fixed_point arithmetic overrides ≡ ok resolved
unfolding resolve_seed_config ◌+ℤ◌ ◌-ℤ◌ String_discrete
passes = refl

resolve_seed_config_ranges_example :
    HasRanges resolved
    × IsRange (pos 1) resolved.wallets_per_customer
    × (overrides.wallets_target ≢ none
        → resolved.wallets_per_customer.max
          ≤ℤ pos (length (active_currencies fixed_point arithmetic resolved)))
resolve_seed_config_ranges_example =
    resolve_seed_config_ranges fixed_point arithmetic overrides resolved refl refl passes

abbrev row_ids : List ℕ
row_ids = 1 ∷ 2 ∷ 3 ∷ 4 ∷ 5 ∷ []
