-- ===== src/Infra/Seed/Database/Unnest.antt =====
-- The column arrays of the inserts in src/infra/seed/persistence/batch-writer.ts, put together again.
use money_across_borders.Base.{ℕ, String, ℤ, Option, List, [], ◌∷◌, ◌++◌, map, ◌≡◌, refl, ap}
use money_across_borders.Infra.Seed.Types.{
  SeedUserRow, SeedAccountRow, SeedKycProfileRow, SeedLedgerEntryRow, SeedRemittanceRow,
}
use money_across_borders.Infra.Seed.Demo.{DemoResponse, SeedIdempotencyRecordRow}
use money_across_borders.Infra.Seed.Database.{SeedWalletRow, IdempotencyRow}

-- `UNNEST` of one more array: the next argument of each row.
infixl 6 ◌<*>◌
abbrev pub ◌<*>◌ : {A B : Type 0} → List (A → B) → List A → List B
[] <*> xs = []
(f ∷ fs) <*> [] = []
(f ∷ fs) <*> (x ∷ xs) = f x ∷ (fs <*> xs)

-- The rows of an INSERT, by the values of its columns in their order.
abbrev user_row : String → String → String → ℕ → ℤ → SeedUserRow
user_row id email password_hash status_id created_at = record {
  id = id;
  email = email;
  password_hash = password_hash;
  status_id = status_id;
  created_at = created_at;
}

unfoldable pub unnest_users : List SeedUserRow → List SeedUserRow
unnest_users batch =
    map user_row (map (λ r. r.id) batch)
    <*> map (λ r. r.email) batch
    <*> map (λ r. r.password_hash) batch
    <*> map (λ r. r.status_id) batch
    <*> map (λ r. r.created_at) batch

abbrev account_row : String → Option String → ℕ → ℤ → SeedAccountRow
account_row id user_id status_id created_at = record {
  id = id;
  user_id = user_id;
  status_id = status_id;
  created_at = created_at;
}

unfoldable pub unnest_accounts : List SeedAccountRow → List SeedAccountRow
unnest_accounts batch =
    map account_row (map (λ r. r.id) batch)
    <*> map (λ r. r.user_id) batch
    <*> map (λ r. r.status_id) batch
    <*> map (λ r. r.created_at) batch

abbrev wallet_row : String → String → String → ℤ → ℕ → ℤ → SeedWalletRow
wallet_row id account_id currency balance_minor_units status_id created_at = record {
  id = id;
  account_id = account_id;
  currency = currency;
  balance_minor_units = balance_minor_units;
  status_id = status_id;
  created_at = created_at;
}

unfoldable pub unnest_wallets : List SeedWalletRow → List SeedWalletRow
unnest_wallets batch =
    map wallet_row (map (λ r. r.id) batch)
    <*> map (λ r. r.account_id) batch
    <*> map (λ r. r.currency) batch
    <*> map (λ r. r.balance_minor_units) batch
    <*> map (λ r. r.status_id) batch
    <*> map (λ r. r.created_at) batch

abbrev kyc_profile_row : String → String → ℕ → String → String → Option ℤ → ℤ → SeedKycProfileRow
kyc_profile_row id account_id status_id full_name document_id verified_at created_at = record {
  id = id;
  account_id = account_id;
  status_id = status_id;
  full_name = full_name;
  document_id = document_id;
  verified_at = verified_at;
  created_at = created_at;
}

unfoldable pub unnest_kyc_profiles : List SeedKycProfileRow → List SeedKycProfileRow
unnest_kyc_profiles batch =
    map kyc_profile_row (map (λ r. r.id) batch)
    <*> map (λ r. r.account_id) batch
    <*> map (λ r. r.status_id) batch
    <*> map (λ r. r.full_name) batch
    <*> map (λ r. r.document_id) batch
    <*> map (λ r. r.verified_at) batch
    <*> map (λ r. r.created_at) batch

abbrev ledger_entry_row :
    String → String → ℕ → ℤ → String → String → String → ℤ → SeedLedgerEntryRow
ledger_entry_row id wallet_id direction_id amount_minor_units currency transaction_id description
      created_at =
    record {
      id = id;
      wallet_id = wallet_id;
      direction_id = direction_id;
      amount_minor_units = amount_minor_units;
      currency = currency;
      transaction_id = transaction_id;
      description = description;
      created_at = created_at;
    }

unfoldable pub unnest_ledger_entries : List SeedLedgerEntryRow → List SeedLedgerEntryRow
unnest_ledger_entries batch =
    map ledger_entry_row (map (λ r. r.id) batch)
    <*> map (λ r. r.wallet_id) batch
    <*> map (λ r. r.direction_id) batch
    <*> map (λ r. r.amount_minor_units) batch
    <*> map (λ r. r.currency) batch
    <*> map (λ r. r.transaction_id) batch
    <*> map (λ r. r.description) batch
    <*> map (λ r. r.created_at) batch

abbrev remittance_row :
    {Float : Type 0}
    → String
    → String
    → String
    → String
    → String
    → ℤ
    → String
    → ℤ
    → String
    → ℤ
    → String
    → Float
    → ℕ
    → ℤ
    → SeedRemittanceRow Float
remittance_row id sender recipient source destination source_amount source_currency fee fee_currency
      converted destination_currency exchange_rate status_id created_at =
    record {
      id = id;
      sender_account_id = sender;
      recipient_account_id = recipient;
      source_wallet_id = source;
      destination_wallet_id = destination;
      source_amount_minor_units = source_amount;
      source_currency = source_currency;
      fee_minor_units = fee;
      fee_currency = fee_currency;
      converted_amount_minor_units = converted;
      destination_currency = destination_currency;
      exchange_rate = exchange_rate;
      status_id = status_id;
      created_at = created_at;
    }

unfoldable pub unnest_remittances :
    {Float : Type 0} → List (SeedRemittanceRow Float) → List (SeedRemittanceRow Float)
unnest_remittances batch =
    map remittance_row (map (λ r. r.id) batch)
    <*> map (λ r. r.sender_account_id) batch
    <*> map (λ r. r.recipient_account_id) batch
    <*> map (λ r. r.source_wallet_id) batch
    <*> map (λ r. r.destination_wallet_id) batch
    <*> map (λ r. r.source_amount_minor_units) batch
    <*> map (λ r. r.source_currency) batch
    <*> map (λ r. r.fee_minor_units) batch
    <*> map (λ r. r.fee_currency) batch
    <*> map (λ r. r.converted_amount_minor_units) batch
    <*> map (λ r. r.destination_currency) batch
    <*> map (λ r. r.exchange_rate) batch
    <*> map (λ r. r.status_id) batch
    <*> map (λ r. r.created_at) batch

abbrev idempotency_record_row : String → Option String → String → Option ℕ → ℤ → IdempotencyRow
idempotency_record_row key request_hash response_body status_code created_at = record {
  key = key;
  request_hash = request_hash;
  response_body = response_body;
  status_code = status_code;
  created_at = created_at;
}

-- `stringify` is JSON.stringify at the responses.
unfoldable pub unnest_idempotency_records :
    (DemoResponse → String) → List SeedIdempotencyRecordRow → List IdempotencyRow
unnest_idempotency_records stringify batch =
    map idempotency_record_row (map (λ r. r.key) batch)
    <*> map (λ r. r.request_hash) batch
    <*> map (λ r. stringify r.response_body) batch
    <*> map (λ r. r.status_code) batch
    <*> map (λ r. r.created_at) batch

-- The arrays of one batch are equally long, so that every row gets its own values.
pub unnest_users_lem : (batch : List SeedUserRow) → unnest_users batch ≡ batch
unfolding unnest_users
unnest_users_lem [] = refl
unnest_users_lem (r ∷ rows) = ap (λ rs. r ∷ rs) (unnest_users_lem rows)

pub unnest_accounts_lem : (batch : List SeedAccountRow) → unnest_accounts batch ≡ batch
unfolding unnest_accounts
unnest_accounts_lem [] = refl
unnest_accounts_lem (r ∷ rows) = ap (λ rs. r ∷ rs) (unnest_accounts_lem rows)

pub unnest_wallets_lem : (batch : List SeedWalletRow) → unnest_wallets batch ≡ batch
unfolding unnest_wallets
unnest_wallets_lem [] = refl
unnest_wallets_lem (r ∷ rows) = ap (λ rs. r ∷ rs) (unnest_wallets_lem rows)

pub unnest_kyc_profiles_lem : (batch : List SeedKycProfileRow) → unnest_kyc_profiles batch ≡ batch
unfolding unnest_kyc_profiles
unnest_kyc_profiles_lem [] = refl
unnest_kyc_profiles_lem (r ∷ rows) = ap (λ rs. r ∷ rs) (unnest_kyc_profiles_lem rows)

pub unnest_ledger_entries_lem :
    (batch : List SeedLedgerEntryRow) → unnest_ledger_entries batch ≡ batch
unfolding unnest_ledger_entries
unnest_ledger_entries_lem [] = refl
unnest_ledger_entries_lem (r ∷ rows) = ap (λ rs. r ∷ rs) (unnest_ledger_entries_lem rows)

pub unnest_remittances_lem :
    {Float : Type 0} (batch : List (SeedRemittanceRow Float)) → unnest_remittances batch ≡ batch
unfolding unnest_remittances
unnest_remittances_lem [] = refl
unnest_remittances_lem (r ∷ rows) = ap (λ rs. r ∷ rs) (unnest_remittances_lem rows)

pub unnest_idempotency_records-append :
    (stringify : DemoResponse → String) (b c : List SeedIdempotencyRecordRow)
    → unnest_idempotency_records stringify (b ++ c)
      ≡ unnest_idempotency_records stringify b ++ unnest_idempotency_records stringify c
unfolding unnest_idempotency_records
unnest_idempotency_records-append stringify [] c = refl
unnest_idempotency_records-append stringify (r ∷ b) c =
    ap
      (λ rs.
        idempotency_record_row r.key r.request_hash (stringify r.response_body) r.status_code
          r.created_at
        ∷ rs)
      (unnest_idempotency_records-append stringify b c)
