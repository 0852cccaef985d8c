-- ===== src/Infra/Seed/Remittances.antt =====
-- The rest of src/infra/seed/generators/remittance-generator.ts: remittances of the other statuses, and
-- the loops over senders and turns. A wallet is read from the state where the code reads its object.
pub mod Traced
use money_across_borders.Base.{
  ℕ, zero, suc, String, ℤ, pos, pos_part, ◌+ℤ◌, ◌-ℤ◌, ltb_ℤ, is_zero, Bool, not, ◌&&◌, true, false,
  Option, none, some, List, [], ◌∷◌, ◌++◌, length, get_elem?, find, filter, is_same, if◌then◌else◌,
}
use money_across_borders.Domain.Numbers.{Floats, integer}
use money_across_borders.Domain.Currency
use money_across_borders.Domain.Money.{Money}
use money_across_borders.Domain.Money
use money_across_borders.Domain.Currency.{Currency}
use money_across_borders.Domain.Exchange.{convert}
use money_across_borders.Infra.Pricing.{calculate}
use money_across_borders.Infra.FxRates.{get_rate}
use money_across_borders.Infra.Seed.Run.{Run, ◌>>=◌, ◌>>◌, pure, lift}
use money_across_borders.Infra.Seed.Arithmetic.{Arithmetic}
use money_across_borders.Infra.Seed.Rng.{at_index, next_int, range, pick, weighted_pick, uuid}
use money_across_borders.Infra.Seed.Dates.{random_timestamp_between}
use money_across_borders.Infra.Seed.Customers.{has}
use money_across_borders.Infra.Seed.Wallets.{max_ℤ, active_currencies}
use money_across_borders.Infra.Seed.Ledger.{draw, read, wallets_of}
use money_across_borders.Infra.Seed.Completed.{BuiltRemittance, build_completed_remittance}
use money_across_borders.Infra.Seed.Types.{
  SeedCustomer, SeedWalletRef, SeedLedgerEntryRow, SeedRemittanceRow, SeedConfig, Seed, Range,
  RemittanceOutcome, completed, rejected_compliance, rejected_insufficient_funds, failed,
  ActivityProfile, heavy, normal, low,
}

pub record RemittanceGenerationResult (Float : Type 0) : Type 0 where
  pub remittances : List (SeedRemittanceRow Float)
  pub ledger_entries : List SeedLedgerEntryRow

-- The result of a turn, before those that follow.
abbrev pub push_built :
    {Float : Type 0}
    → Option (BuiltRemittance Float)
    → RemittanceGenerationResult Float
    → RemittanceGenerationResult Float
push_built none rest = rest
push_built (some b) rest = record {
  remittances = b.remittance_row ∷ rest.remittances;
  ledger_entries = b.leg_rows ++ rest.ledger_entries;
}

abbrev pub join_results :
    {Float : Type 0}
    → RemittanceGenerationResult Float
    → RemittanceGenerationResult Float
    → RemittanceGenerationResult Float
join_results r rest = record {
  remittances = r.remittances ++ rest.remittances;
  ledger_entries = r.ledger_entries ++ rest.ledger_entries;
}

abbrev pub no_remittances : {Float : Type 0} → RemittanceGenerationResult Float
no_remittances = record { remittances = []; ledger_entries = [] }

-- A verified sender is not rejected for compliance.
unfoldable pub plausible_status : Bool → RemittanceOutcome → RemittanceOutcome
plausible_status kyc_verified completed = completed
plausible_status kyc_verified rejected_compliance =
    if kyc_verified then completed else rejected_compliance
plausible_status kyc_verified rejected_insufficient_funds = rejected_insufficient_funds
plausible_status kyc_verified failed = failed

module _ (F : Floats) (M : Arithmetic F) where
  -- The attempts that are left.
  unfoldable pub pick_recipient : List SeedCustomer → String → ℕ → Run ℕ (Option SeedCustomer)
  unfolding next_int
  pick_recipient customers exclude_account_id zero = pure none
  pick_recipient customers exclude_account_id (suc attempts) = do
    i ← next_int F M (pos 0) (pos (length customers) -ℤ pos 1)
    candidate ← lift (at_index (get_elem? customers (pos_part i)))
    let retry = pick_recipient customers exclude_account_id attempts
    if is_same candidate.account_id exclude_account_id then retry else pure (some candidate)

module _ (F : Floats) (M : Arithmetic F) (config : SeedConfig F.Float) (at : ℕ) (now : ℤ) where
  open F use {Float, of_ℤ, decimal, mul}
  open M use {floor}

  abbrev or_pick : List SeedWalletRef → Option SeedWalletRef → Run ℕ (Option SeedWalletRef)
  or_pick wallets (some w) = pure (some w)
  or_pick wallets none = do w ← pick F M wallets; pure (some w)

  unfoldable pub pick_destination_wallet : List SeedWalletRef → Run ℕ (Option SeedWalletRef)
  unfolding weighted_pick active_currencies pick
  pick_destination_wallet [] = pure none
  pick_destination_wallet (w ∷ ws) = do
    preferred ← weighted_pick F M (active_currencies F M config)
    or_pick (w ∷ ws) (find (λ v. is_same v.currency preferred) (w ∷ ws))

  -- What an amount converts to, with the rate.
  unfoldable pub convert_synthetic :
      SeedWalletRef → SeedWalletRef → Currency → Money → Run ℕ (ℤ × Float)
  unfolding Currency.from get_rate convert
  convert_synthetic source destination source_currency money =
      if is_same source.currency destination.currency
      then pure (money.amount_minor_units, of_ℤ (pos 1))
      else (do
        destination_currency ← lift (Currency.from destination.currency)
        quote ← lift (get_rate F at source_currency destination_currency)
        converted ← lift (convert F quote money)
        pure (converted.amount_minor_units, quote.rate))

  unfoldable pub synthetic_row :
      Run ℕ ℤ
      → ℕ
      → SeedCustomer
      → SeedWalletRef
      → SeedCustomer
      → SeedWalletRef
      → Run ℕ (SeedRemittanceRow Float)
  unfolding Currency.from Money.from_minor_units calculate convert_synthetic
      random_timestamp_between uuid
  synthetic_row draw_amount status_id sender source recipient destination = do
    source_currency ← lift (Currency.from source.currency)
    amount ← draw_amount
    money ← lift (Money.from_minor_units (integer amount) source_currency)
    converted ← convert_synthetic source destination source_currency money
    created_at ← random_timestamp_between F M (max_ℤ source.created_at destination.created_at) now
    id ← uuid F M
    pure (record {
      id = id;
      sender_account_id = sender.account_id;
      recipient_account_id = recipient.account_id;
      source_wallet_id = source.id;
      destination_wallet_id = destination.id;
      source_amount_minor_units = amount;
      source_currency = source.currency;
      fee_minor_units = (calculate F money).amount_minor_units;
      fee_currency = source.currency;
      converted_amount_minor_units = converted.0;
      destination_currency = destination.currency;
      exchange_rate = converted.1;
      status_id = status_id;
      created_at = created_at;
    })

  -- The amounts that explain a status.
  unfoldable pub compliance_amount : Run ℕ ℤ
  unfolding next_int
  compliance_amount = next_int F M (pos 100001) (pos 2000000)

  unfoldable pub insufficient_amount : ℤ → Run ℕ ℤ
  unfolding next_int
  insufficient_amount balance = do
    excess ← next_int F M (pos 1000) (pos 100000)
    pure (max_ℤ balance (pos 100) +ℤ excess)

  unfoldable pub failed_amount : ℤ → Run ℕ ℤ
  unfolding range
  failed_amount balance = do
    share ← range F M (decimal 1 2) (decimal 35 2)
    pure (
        max_ℤ (pos 100)
          (floor (mul (of_ℤ (if is_zero balance then pos 100000 else balance)) share)))

  -- A remittance without legs.
  abbrev pub build_synthetic_remittance :
      Run ℕ ℤ
      → ℕ
      → SeedCustomer
      → SeedWalletRef
      → SeedCustomer
      → SeedWalletRef
      → Run Seed (Option (BuiltRemittance Float))
  build_synthetic_remittance draw_amount status_id sender source recipient destination = do
    row ← draw (synthetic_row draw_amount status_id sender source recipient destination)
    pure (some (record { remittance_row = row; leg_rows = [] }))

  unfoldable pub build_remittance :
      RemittanceOutcome
      → SeedCustomer
      → SeedWalletRef
      → SeedCustomer
      → SeedWalletRef
      → Run Seed (Option (BuiltRemittance Float))
  unfolding build_completed_remittance synthetic_row draw compliance_amount insufficient_amount
      failed_amount
  build_remittance completed sender source recipient destination =
      build_completed_remittance F M config at now sender source recipient destination
  build_remittance rejected_compliance sender source recipient destination =
      build_synthetic_remittance compliance_amount 2 sender source recipient destination
  build_remittance rejected_insufficient_funds sender source recipient destination =
      build_synthetic_remittance (insufficient_amount source.balance) 3 sender source recipient
        destination
  build_remittance failed sender source recipient destination =
      build_synthetic_remittance (failed_amount source.balance) 4 sender source recipient
        destination

  -- One turn of the inner loop, from the wallets of both parties on.
  unfoldable pub remit_between :
      SeedCustomer → SeedCustomer → List SeedWalletRef → Run Seed (Option (BuiltRemittance Float))
  unfolding draw read wallets_of pick pick_destination_wallet weighted_pick plausible_status
      build_remittance
  remit_between sender recipient recipient_wallets = do
    sender_wallets ← read (wallets_of sender.account_id)
    source ← draw (pick F M sender_wallets)
    destination ← draw (pick_destination_wallet recipient_wallets)
    elim destination [
      | none ↦ pure none
      | some d ↦ (do
        status ← draw (weighted_pick F M config.remittance_status_distribution)
        build_remittance (plausible_status sender.kyc_verified status) sender source recipient d)
    ]

  -- The recipient's wallets, of which there may be none.
  unfoldable pub remit_to : SeedCustomer → SeedCustomer → Run Seed (Option (BuiltRemittance Float))
  unfolding read wallets_of remit_between
  remit_to sender recipient = do
    recipient_wallets ← read (wallets_of recipient.account_id)
    elim recipient_wallets [ [] ↦ pure none | w ∷ ws ↦ remit_between sender recipient (w ∷ ws) ]

  unfoldable pub remit_once :
      List SeedCustomer → SeedCustomer → Run Seed (Option (BuiltRemittance Float))
  unfolding draw pick_recipient remit_to
  remit_once customers sender = do
    recipient ← draw (pick_recipient F M customers sender.account_id 5)
    elim recipient [ none ↦ pure none | some r ↦ remit_to sender r ]

  unfoldable pub remit_times :
      List SeedCustomer → SeedCustomer → ℕ → Run Seed (RemittanceGenerationResult Float)
  unfolding remit_once
  remit_times customers sender zero = pure no_remittances
  remit_times customers sender (suc n) = do
    built ← remit_once customers sender
    rest ← remit_times customers sender n
    pure (push_built built rest)

  -- `config.remittanceCountByProfile[profile]`
  abbrev pub count_range : ActivityProfile → Range
  count_range heavy = config.heavy_remittances
  count_range normal = config.normal_remittances
  count_range low = config.low_remittances

  abbrev pub remit_counted :
      List SeedCustomer → SeedCustomer → Run Seed (RemittanceGenerationResult Float)
  remit_counted customers sender = do
    count ← draw (
        next_int F M (count_range sender.activity_profile).min
          (count_range sender.activity_profile).max)
    remit_times customers sender (pos_part count)

  -- The turns of one sender, of whom a wallet is needed.
  unfoldable pub remit_sender :
      List SeedCustomer → SeedCustomer → Run Seed (RemittanceGenerationResult Float)
  unfolding read wallets_of draw next_int remit_times
  remit_sender customers sender = do
    sender_wallets ← read (wallets_of sender.account_id)
    elim sender_wallets [ [] ↦ pure no_remittances | w ∷ ws ↦ remit_counted customers sender ]

  unfoldable pub remit_senders :
      List SeedCustomer → List SeedCustomer → Run Seed (RemittanceGenerationResult Float)
  unfolding remit_sender
  remit_senders customers [] = pure no_remittances
  remit_senders customers (sender ∷ senders) = do
    r ← remit_sender customers sender
    rest ← remit_senders customers senders
    pure (join_results r rest)

  unfoldable pub generate_remittances :
      List SeedCustomer → List String → Run Seed (RemittanceGenerationResult Float)
  unfolding remit_senders
  generate_remittances customers exclude_account_ids =
      remit_senders customers (filter (λ c. not (has c.account_id exclude_account_ids)) customers)
