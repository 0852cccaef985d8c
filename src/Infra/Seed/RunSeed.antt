-- ===== src/Infra/Seed/RunSeed.antt =====
-- src/infra/seed/run-seed.ts, without its log.
pub mod Prepared
pub mod Validated
use money_across_borders.Base.{
  ℕ, String, ℤ, Bool, true, false, Option, none, some, List, [], ◌∷◌, ◌++◌, if◌then◌else◌,
}
use money_across_borders.Domain.Errors.{DomainError, Result, ok, err}
use money_across_borders.Domain.Numbers.{Floats}
use money_across_borders.Infra.Seed.Arithmetic.{Arithmetic}
use money_across_borders.Infra.Seed.Types.{ContentionIntent, SeedConfig, SeedWalletRef}
use money_across_borders.Infra.Seed.Demo.{DemoResponse}
use money_across_borders.Infra.Seed.Config.{SeedConfigOverrides, resolve_seed_config}
use money_across_borders.Infra.Seed.Args.{parse_seed_args}
use money_across_borders.Infra.Seed.Dataset.{GeneratedDataset, is_high_contention, generate_dataset}
use money_across_borders.Infra.Seed.Database.{Session, Query, ◌>>=◌, ◌>>◌, pure, lift}
use money_across_borders.Infra.Seed.Database.Setup.{
  assert_database_is_clean, reset_database, load_treasury_wallets,
}
use money_across_borders.Infra.Seed.Database.Writer.{SeedWriteBatch, write_seed_batch}
use money_across_borders.Infra.Seed.Checks.{
  run_referential_checks, run_financial_checks, report_passed,
}

-- What the process finds around it: the doubles nearest to numerals, NODE_ENV, gen_random_uuid() and now() of the database, the file
-- system, JSON.stringify, and the parameters of the generators.
pub record Surroundings : Type 0 where
  pub rounded : ℕ → Option ℕ
  pub production : Bool
  pub random_uuid : ℕ → String
  pub database_now : ℤ
  pub write_requests : List ContentionIntent → List String → Result (Unit {0})
  pub stringify : DemoResponse → String
  pub set_hours : ℤ → ℤ → ℤ → ℤ → ℤ
  pub password_hash : String
  pub at : ℕ
  pub now : ℤ

module _ (F : Floats) (M : Arithmetic F) (E : Surroundings) (refuses : ℕ → Option DomainError) where
  open F use {Float}

  abbrev pub batch_of : GeneratedDataset Float → SeedWriteBatch Float
  batch_of d = record {
    users = d.users;
    accounts = d.accounts;
    kyc_profiles = d.kyc_profiles;
    wallets = d.wallets;
    ledger_entries = d.ledger_entries;
    remittances = d.remittances;
    idempotency_records = d.idempotency_records;
    treasury_wallets = d.treasury_by_currency;
  }

  unfoldable pub prepare : SeedConfig Float → Query Float (Unit {0})
  unfolding reset_database assert_database_is_clean
  prepare config =
      if config.reset
      then reset_database refuses E.production E.random_uuid E.database_now
      else assert_database_is_clean refuses

  abbrev pub write_contention_requests :
      SeedConfig Float → GeneratedDataset Float → Result (Unit {0})
  write_contention_requests config d =
      if is_high_contention config.scenario
      then E.write_requests d.contention_intents d.contention_shared_account_ids
      else ok tt

  -- Whether all checks of the report passed.
  unfoldable pub validate : Query Float Bool
  unfolding run_referential_checks run_financial_checks report_passed
  validate = do
    referential ← run_referential_checks refuses
    financial ← run_financial_checks refuses
    pure (report_passed (referential ++ financial))

  unfoldable pub write_dataset : GeneratedDataset Float → Query Float Bool
  unfolding write_seed_batch validate
  write_dataset d = do write_seed_batch refuses E.stringify (batch_of d); validate

  unfoldable pub write_generated : SeedConfig Float → GeneratedDataset Float → Query Float Bool
  unfolding write_dataset
  write_generated config d = do lift (write_contention_requests config d); write_dataset d

  unfoldable pub seed_from : SeedConfig Float → List SeedWalletRef → Query Float Bool
  unfolding generate_dataset write_generated
  seed_from config treasury = do
    dataset ← lift (generate_dataset F M E.set_hours E.password_hash config E.at E.now treasury)
    write_generated config dataset

  unfoldable pub load_and_seed : SeedConfig Float → Query Float Bool
  unfolding load_treasury_wallets seed_from
  load_and_seed config = do treasury ← load_treasury_wallets refuses; seed_from config treasury

  unfoldable pub run_config : SeedConfig Float → Query Float Bool
  unfolding prepare load_and_seed
  run_config config = do prepare config; load_and_seed config

  unfoldable pub run : SeedConfigOverrides → Query Float Bool
  unfolding resolve_seed_config run_config
  run overrides = do config ← lift (resolve_seed_config F M overrides); run_config config

  abbrev pub exit_code : Result Bool → ℕ
  exit_code (ok true) = 0
  exit_code (ok false) = 1
  exit_code (err e) = 1

  -- The exit code of the process, and the session it leaves.
  unfoldable pub seed_process : List String → Session Float → ℕ × Session Float
  unfolding parse_seed_args run
  seed_process argv s = elim (parse_seed_args E.rounded argv) [
    | err e ↦ (1, s)
    | ok none ↦ (0, s)
    | ok (some overrides) ↦ let (passed, s') = run overrides s in (exit_code passed, s')
  ]
