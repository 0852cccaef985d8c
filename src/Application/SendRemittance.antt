-- ===== src/Application/SendRemittance.antt =====
-- SendRemittanceUseCase of src/application/remittance/uses-cases/send-remittance-use-case.ts, in
-- the order of its statements: what it reads and computes (`prepare`), the legs and the wallets of
-- the posting (`settle`), and the writes (`commit`).
pub mod Execute
pub mod Prepared
pub mod Settled
pub mod Committed
pub mod Balances
pub mod Reconciled
pub mod Correct
pub mod Totals
pub mod Atomic
pub mod Solvent
pub mod SelfTransfer
pub mod Recorded
use Prim.Native.String.{◌++◌ as append}
use money_across_borders.Base.{
  ℕ, String, pos, Bool, true, false, not, Option, none, some, List, [], ◌∷◌, if◌then◌else◌,
}
use money_across_borders.Domain.Errors.{
  DomainError, Result, ok, err, throw_if, ◌>>=◌, ◌>>◌, wallet_not_found, recipient_wallet_not_found,
  compliance_rejected,
}
use money_across_borders.Domain.Numbers.{Number, Floats}
use money_across_borders.Domain.Currency.{Currency}
use money_across_borders.Domain.Currency
use money_across_borders.Domain.Money.{Money}
use money_across_borders.Domain.Money
use money_across_borders.Domain.Exchange.{ExchangeRate, convert}
use money_across_borders.Domain.Wallet.{Wallet}
use money_across_borders.Domain.Wallet
use money_across_borders.Domain.Statuses.{EntryDirection, debit, credit}
use money_across_borders.Domain.Ledger.{LedgerLegDraft}
use money_across_borders.Store.{World, Environment, account_id_from}
use money_across_borders.Store.Repositories.{find_by_account_id_and_currency}

-- src/domain/wallet/treasury-account.ts
abbrev pub treasury_account_id : String
treasury_account_id = "11111111-1111-4111-8111-111111111111"

-- src/application/remittance/dto/send-remittance-input.ts
pub record SendRemittanceInput : Type 0 where
  pub sender_account_id : String
  pub recipient_account_id : String
  pub source_currency : String
  pub destination_currency : String
  pub amount_minor_units : Number

-- ComplianceCheckResult of src/application/shared/compliance/compliance-checker.ts
pub record ComplianceCheckResult : Type 0 where
  pub approved : Bool
  pub reason : Option String

-- The ports: FeeCalculator, ExchangeRateProvider and ComplianceChecker of src/application/shared.
pub record Ports (Float : Type 0) : Type 0 where
  pub calculate : Money → Money
  pub get_rate : Currency → Currency → Result (ExchangeRate Float)
  pub check : String → Money → World Float → Result ComplianceCheckResult

-- What has been read and computed before anything is written.
pub record Deal (Float : Type 0) : Type 0 where
  pub sender_account_id : String
  pub recipient_account_id : String
  pub source_wallet : Wallet
  pub destination_wallet : Wallet
  pub treasury_source_wallet : Wallet
  pub treasury_destination_wallet : Wallet
  pub amount : Money
  pub fee : Money
  pub converted_amount : Money
  pub exchange_rate_value : Float
  pub is_same_currency : Bool
  pub updated_source_wallet : Wallet

-- The legs of the posting, and the other wallets as they will be saved.
pub record Settlement : Type 0 where
  pub legs : List LedgerLegDraft
  pub updated_treasury_source_wallet : Wallet
  pub updated_destination_wallet : Wallet
  pub updated_treasury_destination_wallet : Wallet

-- `x ?? throw e`
abbrev pub or_throw : {A : Type 0} → Option A → DomainError → Result A
or_throw none e = err e
or_throw (some a) e = ok a

-- `${account} (${code})`
abbrev pub wallet_label : String → String → String
wallet_label account code = append account (append " (" (append code ")"))

abbrev reason_of : Option String → String
reason_of none = "sender not approved to send this amount"
reason_of (some reason) = reason

abbrev pub leg : Wallet → EntryDirection → Money → String → LedgerLegDraft
leg w direction money description = record {
  wallet_id = w.id;
  direction = direction;
  money = money;
  description = description;
}

unfoldable pub get_treasury_wallet : Currency → List Wallet → Result Wallet
unfolding find_by_account_id_and_currency
get_treasury_wallet currency wallets =
    or_throw (find_by_account_id_and_currency treasury_account_id currency wallets)
      (wallet_not_found (wallet_label "treasury" currency.code))

-- The principal goes from wallet to wallet, only the fee goes to the treasury.
abbrev pub same_currency_legs : Wallet → Wallet → Wallet → Money → Money → List LedgerLegDraft
same_currency_legs source destination treasury amount fee =
    leg source debit amount "remittance principal debit"
    ∷ leg destination credit amount "remittance principal credit"
    ∷ leg source debit fee "remittance fee debit"
    ∷ leg treasury credit fee "remittance fee revenue"
    ∷ []

abbrev pub cross_currency_legs :
    Wallet → Wallet → Wallet → Wallet → Money → Money → Money → List LedgerLegDraft
cross_currency_legs source destination treasury_source treasury_destination amount fee converted =
    leg source debit amount "remittance principal debit"
    ∷ leg treasury_source credit amount "FX settlement (source leg)"
    ∷ leg source debit fee "remittance fee debit"
    ∷ leg treasury_source credit fee "remittance fee revenue"
    ∷ leg treasury_destination debit converted "FX settlement (destination leg)"
    ∷ leg destination credit converted "remittance principal credit"
    ∷ []

unfoldable pub same_currency_settlement :
    Wallet → Wallet → Wallet → Money → Money → Result Settlement
same_currency_settlement source destination treasury amount fee = do
  treasury' ← Wallet.credit treasury fee
  destination' ← Wallet.credit destination amount
  ok (record {
    legs = same_currency_legs source destination treasury amount fee;
    updated_treasury_source_wallet = treasury';
    updated_destination_wallet = destination';
    updated_treasury_destination_wallet = treasury';
  })

unfoldable pub cross_currency_settlement :
    Wallet → Wallet → Wallet → Wallet → Money → Money → Money → Result Settlement
cross_currency_settlement source destination treasury_source treasury_destination amount fee
      converted =
    do
      funded ← Wallet.credit treasury_source amount
      treasury_source' ← Wallet.credit funded fee
      treasury_destination' ← Wallet.debit treasury_destination converted
      destination' ← Wallet.credit destination converted
      ok (record {
        legs =
            cross_currency_legs source destination treasury_source treasury_destination amount fee
              converted;
        updated_treasury_source_wallet = treasury_source';
        updated_destination_wallet = destination';
        updated_treasury_destination_wallet = treasury_destination';
      })

module _ {Float : Type 0} where
  unfoldable pub settle : Deal Float → Result Settlement
  unfolding same_currency_settlement cross_currency_settlement
  settle d =
      if d.is_same_currency
      then same_currency_settlement d.source_wallet d.destination_wallet d.treasury_source_wallet
          d.amount d.fee
      else cross_currency_settlement d.source_wallet d.destination_wallet d.treasury_source_wallet
          d.treasury_destination_wallet d.amount d.fee d.converted_amount

module _ (F : Floats) (P : Ports F.Float) where
  unfoldable pub convert_at_rate : Currency → Currency → Money → Result Money
  convert_at_rate source destination amount = do
    rate ← P.get_rate source destination
    convert F rate amount

module _ (F : Floats) (E : Environment) (P : Ports F.Float) where
  open F use {Float, of_ℤ, div}

  unfoldable pub prepare : SendRemittanceInput → World Float → Result (Deal Float)
  prepare input w = do
    sender ← account_id_from E input.sender_account_id
    recipient ← account_id_from E input.recipient_account_id
    source_currency ← Currency.from input.source_currency
    destination_currency ← Currency.from input.destination_currency
    source ←
        or_throw (find_by_account_id_and_currency sender source_currency w.wallets)
          (wallet_not_found (wallet_label input.sender_account_id input.source_currency))
    destination ←
        or_throw (find_by_account_id_and_currency recipient destination_currency w.wallets)
          (recipient_wallet_not_found input.recipient_account_id input.destination_currency)
    amount ← Money.from_minor_units input.amount_minor_units source_currency
    compliance ← P.check sender amount w
    throw_if (not compliance.approved) (compliance_rejected (reason_of compliance.reason))
    let fee = P.calculate amount
    let same = Currency.equals source_currency destination_currency
    treasury_source ← get_treasury_wallet source_currency w.wallets
    treasury_destination ←
        (if same then ok treasury_source else get_treasury_wallet destination_currency w.wallets)
    converted ←
        (if same
          then ok amount
          else convert_at_rate F P source_currency destination_currency amount)
    let rate_value =
        if same
        then of_ℤ (pos 1)
        else div (of_ℤ converted.amount_minor_units) (of_ℤ amount.amount_minor_units)
    total ← Money.add amount fee
    debited ← Wallet.debit source total
    ok (record {
      sender_account_id = sender;
      recipient_account_id = recipient;
      source_wallet = source;
      destination_wallet = destination;
      treasury_source_wallet = treasury_source;
      treasury_destination_wallet = treasury_destination;
      amount = amount;
      fee = fee;
      converted_amount = converted;
      exchange_rate_value = rate_value;
      is_same_currency = same;
      updated_source_wallet = debited;
    })
