-- ===== src/Infra/Seed/Database/Setup.antt =====
-- The rest of src/infra/seed/persistence/seed-database.ts: the guard, the reset with the migration
-- 002_seed_treasury_wallets.sql, and the treasury's wallets.
use money_across_borders.Base.{
  ℕ, String, ℤ, pos, ◌==◌, Bool, false, ◌&&◌, ◌||◌, not, Option, none, List, [], ◌∷◌, ◌++◌, map,
  length, filter, is_same, if◌then◌else◌,
}
use money_across_borders.Domain.Errors.{DomainError, Result, ok, err, invalid}
use money_across_borders.Application.SendRemittance.{treasury_account_id}
use money_across_borders.Infra.Seed.Types.{SeedAccountRow, SeedWalletRef}
use money_across_borders.Infra.Seed.Dataset.{clone_treasury}
use money_across_borders.Infra.Seed.Database.{
  SeedWalletRow, Tables, Query, ◌>>=◌, ◌>>◌, pure, lift, statement, select,
}

-- The message begins with the number of the accounts.
abbrev pub database_not_clean : DomainError
database_not_clean = invalid "pre-existing business account(s) besides the treasury account"

abbrev pub nothing_left : {Float : Type 0} → Tables Float
nothing_left = record {
  users = [];
  accounts = [];
  kyc_profiles = [];
  wallets = [];
  ledger_entries = [];
  remittances = [];
  idempotency_records = [];
}

-- What the migration inserts. The ids are gen_random_uuid() and the dates now().
abbrev pub treasury_row : String → ℤ → String → SeedWalletRow
treasury_row id now currency = record {
  id = id;
  account_id = treasury_account_id;
  currency = currency;
  balance_minor_units = pos 1000000000;
  status_id = 1;
  created_at = now;
}

abbrev has_account : String → List SeedAccountRow → Bool
has_account id [] = false
has_account id (a ∷ accounts) = is_same a.id id || has_account id accounts

abbrev has_wallet : String → String → List SeedWalletRow → Bool
has_wallet account_id currency [] = false
has_wallet account_id currency (w ∷ wallets) =
    (is_same w.account_id account_id && is_same w.currency currency)
    || has_wallet account_id currency wallets

-- `ON CONFLICT (account_id, currency) DO NOTHING`
abbrev add_wallet : SeedWalletRow → List SeedWalletRow → List SeedWalletRow
add_wallet w wallets =
    if has_wallet w.account_id w.currency wallets then wallets else wallets ++ (w ∷ [])

abbrev add_account : ℤ → List SeedAccountRow → List SeedAccountRow
add_account now accounts =
    if has_account treasury_account_id accounts
    then accounts
    else accounts
      ++ ((record { id = treasury_account_id; user_id = none; status_id = 1; created_at = now })
          ∷ [])

abbrev pub treasury_migration : {Float : Type 0} → (ℕ → String) → ℤ → Tables Float → Tables Float
treasury_migration random_uuid now t = record t {
  accounts = add_account now t.accounts;
  wallets = add_wallet (treasury_row (random_uuid 3) now "GBP") (
      add_wallet (treasury_row (random_uuid 2) now "EUR") (
        add_wallet (treasury_row (random_uuid 1) now "BRL")
          (add_wallet (treasury_row (random_uuid 0) now "USD") t.wallets)));
}

-- A wallet of the treasury, as the generators take it.
abbrev pub to_wallet_ref : SeedWalletRow → SeedWalletRef
to_wallet_ref row = record {
  id = row.id;
  account_id = treasury_account_id;
  currency = row.currency;
  balance = row.balance_minor_units;
  created_at = pos 0;
}

abbrev pub treasury_rows : {Float : Type 0} → Tables Float → List SeedWalletRow
treasury_rows t = filter (λ w. is_same w.account_id treasury_account_id) t.wallets

abbrev pub refs_of : List SeedWalletRow → Result (List SeedWalletRef)
refs_of [] = err (invalid "No treasury wallets found. Run \"npm run db:migrate\" first")
refs_of (row ∷ rows) = ok (clone_treasury [] (map to_wallet_ref (row ∷ rows)))

module _ {Float : Type 0} (refuses : ℕ → Option DomainError) where
  unfoldable pub assert_database_is_clean : Query Float (Unit {0})
  assert_database_is_clean = do
    others ← select refuses (λ t. filter (λ a. not (is_same a.id treasury_account_id)) t.accounts)
    if length others == 0 then pure tt else lift (err database_not_clean)

  -- `production` says whether NODE_ENV is production.
  unfoldable pub reset_database : Bool → (ℕ → String) → ℤ → Query Float (Unit {0})
  reset_database production random_uuid now =
      if production
      then lift (
          err (invalid "--reset refused: NODE_ENV=production. Point at a non-production database."))
      else (do
        statement refuses (λ t. nothing_left)
        statement refuses (treasury_migration random_uuid now))

  unfoldable pub load_treasury_wallets : Query Float (List SeedWalletRef)
  unfolding clone_treasury
  load_treasury_wallets = do rows ← select refuses treasury_rows; lift (refs_of rows)
