-- ===== src/Infra/Seed/Checks.antt =====
-- src/infra/seed/validation: the checks over the tables, without the text of their details.
pub mod Global
pub mod Rows
pub mod Passed
use money_across_borders.Base.{
  ℕ, ◌==◌, String, ℤ, pos, ◌+ℤ◌, leb_ℤ, ltb_ℤ, is_zero, Bool, true, false, ◌&&◌, ◌||◌, not, Option,
  List, [], ◌∷◌, ◌++◌, length, filter, is_same, if◌then◌else◌,
}
use money_across_borders.Domain.Errors.{DomainError}
use money_across_borders.Application.SendRemittance.{treasury_account_id}
use money_across_borders.Infra.Seed.Types.{SeedAccountRow, SeedLedgerEntryRow}
use money_across_borders.Infra.Seed.Ledger.Posted.{signed_debit, credited, net}
use money_across_borders.Infra.Seed.Database.{SeedWalletRow, Tables, Query, ◌>>=◌, pure, select}
use money_across_borders.Infra.Seed.Database.Setup.{treasury_rows}

pub record ValidationCheck : Type 0 where
  pub name : String
  pub passed : Bool

module _ {A : Type 0} where
  abbrev pub every : (A → Bool) → List A → Bool
  every p [] = true
  every p (x ∷ xs) = p x && every p xs

  abbrev pub any : (A → Bool) → List A → Bool
  any p [] = false
  any p (x ∷ xs) = p x || any p xs

abbrev pub row_global : String → SeedLedgerEntryRow → ℤ
row_global c e = if is_same e.currency c then signed_debit e else pos 0

-- Debits less credits of a currency.
unfoldable pub global_net : String → List SeedLedgerEntryRow → ℤ
global_net c [] = pos 0
global_net c (e ∷ es) = row_global c e +ℤ global_net c es

-- No group of entries of one currency has a sum other than zero.
unfoldable pub debits_equal_credits : {Float : Type 0} → Tables Float → Bool
unfolding global_net
debits_equal_credits t =
    every (λ e. is_zero (global_net e.currency t.ledger_entries)) t.ledger_entries

-- No group of entries of one transaction and currency has a sum other than zero.
unfoldable pub every_posting_balances : {Float : Type 0} → Tables Float → Bool
unfolding net
every_posting_balances t =
    every (λ e. is_zero (net e.transaction_id e.currency t.ledger_entries)) t.ledger_entries

abbrev pub is_equal : ℤ → ℤ → Bool
is_equal a b = leb_ℤ a b && leb_ℤ b a

-- `wallets` has a primary key, so that each group is one wallet.
unfoldable pub wallet_balances_match_ledger : {Float : Type 0} → Tables Float → Bool
unfolding credited
wallet_balances_match_ledger t =
    every
      (λ w.
        is_same w.account_id treasury_account_id
        || is_equal w.balance_minor_units (credited w.id t.ledger_entries))
      t.wallets

unfoldable pub no_negative_balances : {Float : Type 0} → Tables Float → Bool
no_negative_balances t = length (filter (λ w. ltb_ℤ w.balance_minor_units (pos 0)) t.wallets) == 0

unfoldable pub treasury_liquidity : {Float : Type 0} → Tables Float → Bool
treasury_liquidity t =
    let rows = treasury_rows t in
    length (filter (λ w. ltb_ℤ w.balance_minor_units (pos 0)) rows) == 0 && not (length rows == 0)

-- The rows whose reference finds no row: `LEFT JOIN ... WHERE a.id IS NULL`.
abbrev orphans : {A B : Type 0} → (A → String) → (B → String) → List A → List B → List A
orphans reference key rows targets =
    filter (λ r. not (any (λ b. is_same (key b) (reference r)) targets)) rows

abbrev check_orphans :
    {A B : Type 0} → String → (A → String) → (B → String) → List A → List B → ValidationCheck
check_orphans name reference key rows targets = record {
  name = name;
  passed = length (orphans reference key rows targets) == 0;
}

-- A check, as a function of the tables that its query sees.
abbrev pub Check : Type 0 → Type 0
Check Float = Tables Float → ValidationCheck

unfoldable pub referential_checks : {Float : Type 0} → List (Check Float)
referential_checks =
    (λ t. check_orphans "wallets -> accounts" (λ w. w.account_id) (λ a. a.id) t.wallets t.accounts)
    ∷ (λ t.
        check_orphans "ledger_entries -> wallets" (λ e. e.wallet_id) (λ w. w.id) t.ledger_entries
          t.wallets)
    ∷ (λ t.
        check_orphans "kyc_profiles -> accounts" (λ k. k.account_id) (λ a. a.id) t.kyc_profiles
          t.accounts)
    ∷ (λ t.
        check_orphans "remittances -> sender accounts" (λ r. r.sender_account_id) (λ a. a.id)
          t.remittances t.accounts)
    ∷ (λ t.
        check_orphans "remittances -> recipient accounts" (λ r. r.recipient_account_id) (λ a. a.id)
          t.remittances t.accounts)
    ∷ (λ t.
        check_orphans "remittances -> source wallets" (λ r. r.source_wallet_id) (λ w. w.id)
          t.remittances t.wallets)
    ∷ (λ t.
        check_orphans "remittances -> destination wallets" (λ r. r.destination_wallet_id)
          (λ w. w.id) t.remittances t.wallets)
    ∷ []

abbrev check : {Float : Type 0} → String → (Tables Float → Bool) → Check Float
check name test t = record { name = name; passed = test t }

unfoldable pub financial_checks : {Float : Type 0} → List (Check Float)
unfolding debits_equal_credits every_posting_balances wallet_balances_match_ledger
    no_negative_balances treasury_liquidity
financial_checks =
    check "Debits == Credits (global, per currency)" debits_equal_credits
    ∷ check "Every posting balances per currency (LedgerService invariant)" every_posting_balances
    ∷ check "Wallet balances consistent with ledger" wallet_balances_match_ledger
    ∷ check "No invalid negative balances" no_negative_balances
    ∷ check "Treasury liquidity sufficient" treasury_liquidity
    ∷ []

module _ {Float : Type 0} (refuses : ℕ → Option DomainError) where
  -- One query for each check, in turn.
  unfoldable pub run_checks : List (Check Float) → Query Float (List ValidationCheck)
  run_checks [] = pure []
  run_checks (c ∷ cs) = do found ← select refuses c; rest ← run_checks cs; pure (found ∷ rest)

  unfoldable pub run_referential_checks : Query Float (List ValidationCheck)
  unfolding run_checks referential_checks
  run_referential_checks = run_checks referential_checks

  unfoldable pub run_financial_checks : Query Float (List ValidationCheck)
  unfolding run_checks financial_checks
  run_financial_checks = run_checks financial_checks

-- `passed` of `buildSeedReport`
unfoldable pub report_passed : List ValidationCheck → Bool
report_passed checks = every (λ c. c.passed) checks
