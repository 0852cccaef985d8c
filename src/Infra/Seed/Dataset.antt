-- ===== src/Infra/Seed/Dataset.antt =====
-- src/infra/seed/generate-dataset.ts
pub mod Backed
use money_across_borders.Base.{
  ℕ, String, ℤ, ◌==◌, Bool, true, false, List, [], ◌∷◌, ◌++◌, filter, is_same, if◌then◌else◌,
}
use money_across_borders.Domain.Errors.{Result, ok, err}
use money_across_borders.Domain.Numbers.{Floats}
use money_across_borders.Infra.Seed.Run.{Run, ◌>>=◌, ◌>>◌, pure}
use money_across_borders.Infra.Seed.Arithmetic.{Arithmetic}
use money_across_borders.Infra.Seed.Rng.{to_uint32}
use money_across_borders.Infra.Seed.Types.{
  SeedUserRow, SeedAccountRow, SeedCustomer, SeedKycProfileRow, SeedWalletRef, SeedLedgerEntryRow,
  SeedRemittanceRow, ContentionIntent, SeedConfig, Seed, ScenarioName, plain, high_contention,
}
use money_across_borders.Infra.Seed.Customers.{CustomerGenerationResult, generate_customers}
use money_across_borders.Infra.Seed.Kyc.{generate_kyc_profiles}
use money_across_borders.Infra.Seed.Wallets.{generate_wallets}
use money_across_borders.Infra.Seed.Funding.{generate_funding}
use money_across_borders.Infra.Seed.Ledger.{draw}
use money_across_borders.Infra.Seed.Remittances.{RemittanceGenerationResult, generate_remittances}
use money_across_borders.Infra.Seed.Contention.{ContentionPoolResult, build_contention_pool}
use money_across_borders.Infra.Seed.Demo.{
  SeedIdempotencyRecordRow, generate_idempotency_demo_records,
}

-- What is generated before any balance moves.
pub record People : Type 0 where
  pub users : List SeedUserRow
  pub accounts : List SeedAccountRow
  pub customers : List SeedCustomer
  pub kyc_profiles : List SeedKycProfileRow
  pub opened : List SeedWalletRef

-- What is generated with the postings.
pub record Postings (Float : Type 0) : Type 0 where
  pub ledger_entries : List SeedLedgerEntryRow
  pub remittances : List (SeedRemittanceRow Float)
  pub idempotency_records : List SeedIdempotencyRecordRow
  pub contention_intents : List ContentionIntent
  pub contention_shared_account_ids : List String

pub record GeneratedDataset (Float : Type 0) : Type 0 where
  pub users : List SeedUserRow
  pub accounts : List SeedAccountRow
  pub customers : List SeedCustomer
  pub kyc_profiles : List SeedKycProfileRow
  pub wallets : List SeedWalletRef
  pub ledger_entries : List SeedLedgerEntryRow
  pub remittances : List (SeedRemittanceRow Float)
  pub idempotency_records : List SeedIdempotencyRecordRow
  pub contention_intents : List ContentionIntent
  pub contention_shared_account_ids : List String
  pub treasury_by_currency : List SeedWalletRef

-- `new Map(treasuryWallets.map((wallet) => [wallet.currency, { ...wallet }]))`, from a map on.
abbrev pub set_treasury : SeedWalletRef → List SeedWalletRef → List SeedWalletRef
set_treasury w [] = w ∷ []
set_treasury w (v ∷ m) = if is_same v.currency w.currency then w ∷ m else v ∷ set_treasury w m

unfoldable pub clone_treasury : List SeedWalletRef → List SeedWalletRef → List SeedWalletRef
clone_treasury m [] = m
clone_treasury m (w ∷ ws) = clone_treasury (set_treasury w m) ws

abbrev pub no_contention : ContentionPoolResult
no_contention = record { shared_account_ids = []; top_up_ledger_entries = []; intents = [] }

abbrev pub is_high_contention : ScenarioName → Bool
is_high_contention plain = false
is_high_contention high_contention = true

module _ (F : Floats) (M : Arithmetic F) (set_hours : ℤ → ℤ → ℤ → ℤ → ℤ) (password_hash : String)
    (config : SeedConfig F.Float) (at : ℕ) (now : ℤ) where
  open F use {Float}

  abbrev pub people_of :
      CustomerGenerationResult
      → List SeedCustomer × List SeedKycProfileRow
      → List SeedWalletRef
      → People
  people_of generated profiles wallets = record {
    users = generated.users;
    accounts = generated.accounts;
    customers = profiles.0;
    kyc_profiles = profiles.1;
    opened = wallets;
  }

  unfoldable pub generate_people : Run ℕ People
  unfolding generate_customers generate_kyc_profiles generate_wallets
  generate_people = do
    generated ← generate_customers F M set_hours password_hash config now
    profiles ← generate_kyc_profiles F M config now generated.customers
    wallets ← generate_wallets F M config now profiles.0
    pure (people_of generated profiles wallets)

  abbrev pub postings_of :
      List SeedLedgerEntryRow
      → RemittanceGenerationResult Float
      → ContentionPoolResult
      → List SeedIdempotencyRecordRow
      → Postings Float
  postings_of funding remitted pool records = record {
    ledger_entries = funding ++ (remitted.ledger_entries ++ pool.top_up_ledger_entries);
    remittances = remitted.remittances;
    idempotency_records = records;
    contention_intents = pool.intents;
    contention_shared_account_ids = pool.shared_account_ids;
  }

  -- `remittances.filter((r) => r.status_id === 1)`
  abbrev pub completed_of : RemittanceGenerationResult Float → List (SeedRemittanceRow Float)
  completed_of remitted = filter (λ r. r.status_id == 1) remitted.remittances

  unfoldable pub generate_postings : List SeedCustomer → Run Seed (Postings Float)
  unfolding generate_funding generate_remittances build_contention_pool
      generate_idempotency_demo_records draw
  generate_postings customers = do
    funding ← generate_funding F M config
    remitted ← generate_remittances F M config at now customers []
    pool ←
        if is_high_contention config.scenario
        then build_contention_pool F M config now customers
        else pure no_contention
    records ← draw (generate_idempotency_demo_records F M config (completed_of remitted))
    pure (postings_of funding remitted pool records)

  -- All rows, with the balances that the postings leave.
  abbrev pub assemble : People → Postings Float → Seed → GeneratedDataset Float
  assemble people postings s = record {
    users = people.users;
    accounts = people.accounts;
    customers = people.customers;
    kyc_profiles = people.kyc_profiles;
    wallets = s.wallets;
    ledger_entries = postings.ledger_entries;
    remittances = postings.remittances;
    idempotency_records = postings.idempotency_records;
    contention_intents = postings.contention_intents;
    contention_shared_account_ids = postings.contention_shared_account_ids;
    treasury_by_currency = s.treasury;
  }

  abbrev pub before_postings : ℕ → People → List SeedWalletRef → Seed
  before_postings rng people treasury_wallets = record {
    rng = rng;
    wallets = people.opened;
    treasury = clone_treasury [] treasury_wallets;
  }

  unfoldable pub generate_dataset : List SeedWalletRef → Result (GeneratedDataset Float)
  unfolding to_uint32 generate_people generate_postings clone_treasury
  generate_dataset treasury_wallets = elim (generate_people (to_uint32 config.seed)) [
    | err e ↦ err e
    | ok r ↦ elim (generate_postings r.0.customers (before_postings r.1 r.0 treasury_wallets)) [
      | err e ↦ err e
      | ok t ↦ ok (assemble r.0 t.0 t.1)
    ]
  ]
