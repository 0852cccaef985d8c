-- ===== src/Infra/Seed/Database/Writer.antt =====
-- src/infra/seed/persistence/batch-writer.ts and `writeSeedBatch` of
-- src/infra/seed/persistence/seed-database.ts
use money_across_borders.Base.{
  ℕ, String, Bool, false, ◌||◌, Option, List, [], ◌∷◌, ◌++◌, map, is_same, if◌then◌else◌,
}
use money_across_borders.Domain.Errors.{DomainError}
use money_across_borders.Infra.Seed.Types.{
  SeedUserRow, SeedAccountRow, SeedKycProfileRow, SeedLedgerEntryRow, SeedRemittanceRow,
  SeedWalletRef,
}
use money_across_borders.Infra.Seed.Demo.{DemoResponse, SeedIdempotencyRecordRow}
use money_across_borders.Infra.Seed.Batches.{chunk}
use money_across_borders.Infra.Seed.Database.{
  SeedWalletRow, IdempotencyRow, Tables, Query, ◌>>◌, pure, statement, in_transaction,
}
use money_across_borders.Infra.Seed.Database.Unnest.{
  unnest_users, unnest_accounts, unnest_wallets, unnest_kyc_profiles, unnest_ledger_entries,
  unnest_remittances, unnest_idempotency_records,
}

-- `DEFAULT_BATCH_SIZE`
abbrev pub default_batch_size : ℕ
default_batch_size = 5000

abbrev pub has_key : String → List IdempotencyRow → Bool
has_key key [] = false
has_key key (r ∷ rows) = is_same r.key key || has_key key rows

-- `ON CONFLICT (key) DO NOTHING`, row by row.
unfoldable pub add_absent : List IdempotencyRow → List IdempotencyRow → List IdempotencyRow
add_absent [] table = table
add_absent (r ∷ rows) table =
    add_absent rows (if has_key r.key table then table else table ++ (r ∷ []))

pub record SeedWriteBatch (Float : Type 0) : Type 0 where
  pub users : List SeedUserRow
  pub accounts : List SeedAccountRow
  pub kyc_profiles : List SeedKycProfileRow
  pub wallets : List SeedWalletRef
  pub ledger_entries : List SeedLedgerEntryRow
  pub remittances : List (SeedRemittanceRow Float)
  pub idempotency_records : List SeedIdempotencyRecordRow
  pub treasury_wallets : List SeedWalletRef

abbrev pub to_wallet_row : SeedWalletRef → SeedWalletRow
to_wallet_row w = record {
  id = w.id;
  account_id = w.account_id;
  currency = w.currency;
  balance_minor_units = w.balance;
  status_id = 1;
  created_at = w.created_at;
}

-- `UPDATE wallets SET balance_minor_units = $1 WHERE id = $2`
abbrev pub set_balance : SeedWalletRef → SeedWalletRow → SeedWalletRow
set_balance w row = record row {
  balance_minor_units = if is_same row.id w.id then w.balance else row.balance_minor_units;
}

module _ {Float : Type 0} (refuses : ℕ → Option DomainError) where
  -- `for (const batch of chunk(rows, batchSize))`, one statement for each.
  unfoldable pub insert_batches :
      {A : Type 0} → (List A → Tables Float → Tables Float) → List (List A) → Query Float (Unit {0})
  insert_batches insert [] = pure tt
  insert_batches insert (batch ∷ batches) = do
    statement refuses (insert batch)
    insert_batches insert batches

  unfoldable pub insert_users : List SeedUserRow → ℕ → Query Float (Unit {0})
  unfolding insert_batches chunk unnest_users
  insert_users rows size =
      insert_batches (λ batch t. record t { users = t.users ++ unnest_users batch })
        (chunk rows size)

  unfoldable pub insert_accounts : List SeedAccountRow → ℕ → Query Float (Unit {0})
  unfolding insert_batches chunk unnest_accounts
  insert_accounts rows size =
      insert_batches (λ batch t. record t { accounts = t.accounts ++ unnest_accounts batch })
        (chunk rows size)

  unfoldable pub insert_wallets : List SeedWalletRow → ℕ → Query Float (Unit {0})
  unfolding insert_batches chunk unnest_wallets
  insert_wallets rows size =
      insert_batches (λ batch t. record t { wallets = t.wallets ++ unnest_wallets batch })
        (chunk rows size)

  unfoldable pub insert_kyc_profiles : List SeedKycProfileRow → ℕ → Query Float (Unit {0})
  unfolding insert_batches chunk unnest_kyc_profiles
  insert_kyc_profiles rows size =
      insert_batches
        (λ batch t. record t { kyc_profiles = t.kyc_profiles ++ unnest_kyc_profiles batch })
        (chunk rows size)

  unfoldable pub insert_ledger_entries : List SeedLedgerEntryRow → ℕ → Query Float (Unit {0})
  unfolding insert_batches chunk unnest_ledger_entries
  insert_ledger_entries rows size =
      insert_batches
        (λ batch t. record t { ledger_entries = t.ledger_entries ++ unnest_ledger_entries batch })
        (chunk rows size)

  unfoldable pub insert_remittances : List (SeedRemittanceRow Float) → ℕ → Query Float (Unit {0})
  unfolding insert_batches chunk unnest_remittances
  insert_remittances rows size =
      insert_batches
        (λ batch t. record t { remittances = t.remittances ++ unnest_remittances batch })
        (chunk rows size)

  unfoldable pub insert_idempotency_records :
      (DemoResponse → String) → List SeedIdempotencyRecordRow → ℕ → Query Float (Unit {0})
  unfolding insert_batches chunk unnest_idempotency_records add_absent
  insert_idempotency_records stringify rows size =
      insert_batches
        (λ batch t. record t {
          idempotency_records =
              add_absent (unnest_idempotency_records stringify batch) t.idempotency_records;
        })
        (chunk rows size)

  unfoldable pub update_treasury : List SeedWalletRef → Query Float (Unit {0})
  update_treasury [] = pure tt
  update_treasury (w ∷ ws) = do
    statement refuses (λ t. record t { wallets = map (set_balance w) t.wallets })
    update_treasury ws

-- `stringify` is JSON.stringify at the responses.
module _ {Float : Type 0} (refuses : ℕ → Option DomainError)
    (stringify : DemoResponse → String) where
  -- The statements between BEGIN and COMMIT.
  unfoldable pub insert_all : SeedWriteBatch Float → Query Float (Unit {0})
  unfolding insert_users insert_accounts insert_wallets insert_kyc_profiles insert_ledger_entries
      insert_remittances insert_idempotency_records update_treasury
  insert_all batch = do
    insert_users refuses batch.users default_batch_size
    insert_accounts refuses batch.accounts default_batch_size
    insert_kyc_profiles refuses batch.kyc_profiles default_batch_size
    insert_wallets refuses (map to_wallet_row batch.wallets) default_batch_size
    update_treasury refuses batch.treasury_wallets
    insert_ledger_entries refuses batch.ledger_entries default_batch_size
    insert_remittances refuses batch.remittances default_batch_size
    insert_idempotency_records refuses stringify batch.idempotency_records default_batch_size

  unfoldable pub write_seed_batch : SeedWriteBatch Float → Query Float (Unit {0})
  unfolding insert_all in_transaction
  write_seed_batch batch = in_transaction refuses (insert_all batch)
