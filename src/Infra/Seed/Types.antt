-- ===== src/Infra/Seed/Types.antt =====
-- The rows of src/infra/seed/types.ts and the configuration of src/infra/seed/config/seed-config.ts.
-- A date is a number of milliseconds.
use money_across_borders.Base.{ℕ, String, ℤ, Bool, Option, List}
use money_across_borders.Infra.Seed.Rng.{Weighted}

pub data ActivityProfile : Type 0 where
  heavy normal low : ActivityProfile

pub record SeedUserRow : Type 0 where
  pub id : String
  pub email : String
  pub password_hash : String
  pub status_id : ℕ
  pub created_at : ℤ

pub record SeedAccountRow : Type 0 where
  pub id : String
  pub user_id : Option String
  pub status_id : ℕ
  pub created_at : ℤ

pub record SeedKycProfileRow : Type 0 where
  pub id : String
  pub account_id : String
  pub status_id : ℕ
  pub full_name : String
  pub document_id : String
  pub verified_at : Option ℤ
  pub created_at : ℤ

pub record SeedLedgerEntryRow : Type 0 where
  pub id : String
  pub wallet_id : String
  pub direction_id : ℕ
  pub amount_minor_units : ℤ
  pub currency : String
  pub transaction_id : String
  pub description : String
  pub created_at : ℤ

pub record SeedRemittanceRow (Float : Type 0) : Type 0 where
  pub id : String
  pub sender_account_id : String
  pub recipient_account_id : String
  pub source_wallet_id : String
  pub destination_wallet_id : String
  pub source_amount_minor_units : ℤ
  pub source_currency : String
  pub fee_minor_units : ℤ
  pub fee_currency : String
  pub converted_amount_minor_units : ℤ
  pub destination_currency : String
  pub exchange_rate : Float
  pub status_id : ℕ
  pub created_at : ℤ

pub record SeedCustomer : Type 0 where
  pub account_id : String
  pub user_id : String
  pub activity_profile : ActivityProfile
  pub kyc_verified : Bool
  pub created_at : ℤ

-- A wallet during generation. Its object is referred to by its id.
pub record SeedWalletRef : Type 0 where
  pub id : String
  pub account_id : String
  pub currency : String
  pub balance : ℤ
  pub created_at : ℤ

pub record ContentionIntent : Type 0 where
  pub sender_account_id : String
  pub sender_currency : String
  pub recipient_account_id : String
  pub recipient_currency : String
  pub amount_minor_units : ℤ
  pub idempotency_key : String

pub data ScenarioName : Type 0 where
  plain high_contention : ScenarioName

pub data KycOutcome : Type 0 where
  verified pending rejected : KycOutcome

pub data RemittanceOutcome : Type 0 where
  completed rejected_compliance rejected_insufficient_funds failed : RemittanceOutcome

pub data BalanceTier : Type 0 where
  zero_tier low_tier medium_tier high_tier : BalanceTier

pub record Range : Type 0 where
  pub min : ℤ
  pub max : ℤ

pub record SeedConfig (Float : Type 0) : Type 0 where
  pub seed : ℤ
  pub scenario : ScenarioName
  pub customers : ℤ
  pub date_range_days : ℤ
  pub reset : Bool
  pub kyc_distribution : List (Weighted Float KycOutcome)
  pub activity_distribution : List (Weighted Float ActivityProfile)
  pub currency_distribution : List (Weighted Float String)
  pub remittance_status_distribution : List (Weighted Float RemittanceOutcome)
  pub wallets_per_customer : Range
  pub heavy_remittances : Range
  pub normal_remittances : Range
  pub low_remittances : Range
  pub balance_tier_distribution : List (Weighted Float BalanceTier)
  pub low_balances : Range
  pub medium_balances : Range
  pub high_balances : Range
  pub fx_jitter : Float
  pub idempotency_demo_ratio : Float
  pub contention_shared_accounts : ℕ
  pub contention_intents : ℕ
  pub contention_amount_range : Range

-- The state of a run: the generator's word and the balances, those of the customers' wallets and of
-- the treasury's, which stand in a `Map` by currency.
pub record Seed : Type 0 where
  pub rng : ℕ
  pub wallets : List SeedWalletRef
  pub treasury : List SeedWalletRef
