-- ===== src/Infra/Seed/Completed.antt =====
-- Completed remittances of src/infra/seed/generators/remittance-generator.ts: `buildCompletedRemittance`
-- and what it calls. A pair of wallets is read from the state when the remittance starts.
pub mod Legs
pub mod Sums
pub mod Built
pub mod Traced
use money_across_borders.Base.{
  ℕ, zero, suc, ◌+◌, String, ℤ, pos, ◌+ℤ◌, ◌-ℤ◌, ltb_ℤ, leb_ℤ, Bool, true, false, ◌&&◌, Option,
  none, some, List, [], ◌∷◌, get_elem?, is_same, if◌then◌else◌,
}
use money_across_borders.Domain.Numbers.{Floats, integer}
use money_across_borders.Domain.Currency.{Currency}
use money_across_borders.Domain.Currency
use money_across_borders.Domain.Money
use money_across_borders.Infra.Pricing.{calculate}
use money_across_borders.Infra.FxRates.{get_rate}
use money_across_borders.Infra.Seed.Run.{Run, ◌>>=◌, ◌>>◌, pure, lift}
use money_across_borders.Infra.Seed.Arithmetic.{Arithmetic}
use money_across_borders.Infra.Seed.Rng.{range, uuid}
use money_across_borders.Infra.Seed.Dates.{random_timestamp_between}
use money_across_borders.Infra.Seed.Wallets.{min_ℤ, max_ℤ}
use money_across_borders.Infra.Seed.Ledger.{
  LegDraft, require_balanced, credit, debit, require_treasury, draw,
}
use money_across_borders.Infra.Seed.Types.{
  SeedCustomer, SeedWalletRef, SeedLedgerEntryRow, SeedRemittanceRow, SeedConfig, Seed,
}
use money_across_borders.Infra.Seed.Drafts.{
  leg, same_currency_drafts, cross_currency_drafts, describe_leg, ledger_row, to_ledger_rows,
}

pub record Settlement (Float : Type 0) : Type 0 where
  pub amount : ℤ
  pub converted_amount : ℤ
  pub exchange_rate_value : Float
  pub treasury_destination : Option SeedWalletRef
  pub legs : List LegDraft

pub record BuiltRemittance (Float : Type 0) : Type 0 where
  pub remittance_row : SeedRemittanceRow Float
  pub leg_rows : List SeedLedgerEntryRow

-- The rates are asked for at the date `at`.
module _ (F : Floats) (M : Arithmetic F) (config : SeedConfig F.Float) (at : ℕ) (now : ℤ) where
  open F use {Float, of_ℤ, decimal, mul, div, pow10, round}
  open M use {add, sub, floor}

  abbrev pub in_cross_currency :
      SeedWalletRef
      → SeedWalletRef
      → SeedWalletRef
      → SeedWalletRef
      → ℤ
      → ℤ
      → ℤ
      → Float
      → Settlement Float
  in_cross_currency source destination treasury_source treasury_destination fee amount converted
        rate =
      record {
        amount = amount;
        converted_amount = converted;
        exchange_rate_value = rate;
        treasury_destination = some treasury_destination;
        legs =
            cross_currency_drafts source destination treasury_source treasury_destination amount fee
              converted;
      }

  abbrev pub cross_settlement :
      SeedWalletRef
      → SeedWalletRef
      → SeedWalletRef
      → SeedWalletRef
      → ℤ
      → Float
      → Option (ℤ × ℤ)
      → Option (Settlement Float)
  cross_settlement source destination treasury_source treasury_destination fee rate none = none
  cross_settlement source destination treasury_source treasury_destination fee rate (some r) =
      some
        (in_cross_currency source destination treasury_source treasury_destination fee r.0 r.1 rate)

  abbrev pub jittered_rate : Float → Float → Float
  jittered_rate rate jitter = mul rate (add (of_ℤ (pos 1)) jitter)

  -- The amounts of a remittance across currencies: the amount is scaled down to what the treasury
  -- can pay, or there is none.
  unfoldable pub scale_to_treasury : ℤ → Float → ℤ → ℤ → Option (ℤ × ℤ)
  scale_to_treasury treasury_balance rate adjustment amount =
      let convert : ℤ → ℤ = λ n. round (mul (mul (of_ℤ n) rate) (pow10 adjustment)) in
      let max_affordable = floor (mul (of_ℤ treasury_balance) (decimal 9 1)) in
      let scaled = floor (mul (of_ℤ amount) (div (of_ℤ max_affordable) (of_ℤ (convert amount)))) in
      if ltb_ℤ max_affordable (convert amount)
      then (if leb_ℤ max_affordable (pos 0)
          then none
          else (if ltb_ℤ scaled (pos 100) then none else some (scaled, convert scaled)))
      else some (amount, convert amount)

  unfoldable pub settle_cross_currency :
      SeedWalletRef
      → SeedWalletRef
      → SeedWalletRef
      → Currency
      → ℤ
      → ℤ
      → Run Seed (Option (Settlement Float))
  unfolding require_treasury draw range Currency.from get_rate scale_to_treasury
      cross_currency_drafts
  settle_cross_currency source destination treasury_source source_currency amount fee = do
    treasury_destination ← require_treasury destination.currency
    destination_currency ← lift (Currency.from destination.currency)
    quote ← lift (get_rate F at source_currency destination_currency)
    jitter ← draw (range F M (sub (of_ℤ (pos 0)) config.fx_jitter) config.fx_jitter)
    pure (
        cross_settlement source destination treasury_source treasury_destination fee
          (jittered_rate quote.rate jitter)
          (scale_to_treasury treasury_destination.balance (jittered_rate quote.rate jitter)
            (pos destination_currency.minor_unit_exponent
              -ℤ pos source_currency.minor_unit_exponent)
            amount))

  abbrev pub in_same_currency :
      SeedWalletRef → SeedWalletRef → SeedWalletRef → ℤ → ℤ → Settlement Float
  in_same_currency source destination treasury_source amount fee = record {
    amount = amount;
    converted_amount = amount;
    exchange_rate_value = of_ℤ (pos 1);
    treasury_destination = none;
    legs = same_currency_drafts source destination treasury_source amount fee;
  }

  abbrev pub completed_row :
      SeedCustomer
      → SeedWalletRef
      → SeedCustomer
      → SeedWalletRef
      → ℤ
      → Settlement Float
      → String
      → ℤ
      → SeedRemittanceRow Float
  completed_row sender source recipient destination fee t id created_at = record {
    id = id;
    sender_account_id = sender.account_id;
    recipient_account_id = recipient.account_id;
    source_wallet_id = source.id;
    destination_wallet_id = destination.id;
    source_amount_minor_units = t.amount;
    source_currency = source.currency;
    fee_minor_units = fee;
    fee_currency = source.currency;
    converted_amount_minor_units = t.converted_amount;
    destination_currency = destination.currency;
    exchange_rate = t.exchange_rate_value;
    status_id = 1;
    created_at = created_at;
  }

  -- The four changes of balances.
  unfoldable pub apply_balances :
      SeedWalletRef → SeedWalletRef → SeedWalletRef → ℤ → Settlement Float → Run Seed (Unit {0})
  unfolding credit debit
  apply_balances source destination treasury_source fee t = do
    debit source.id (t.amount +ℤ fee)
    credit destination.id t.converted_amount
    credit treasury_source.id
        (if is_same source.currency destination.currency then fee else t.amount +ℤ fee)
    elim t.treasury_destination [ none ↦ pure tt | some w ↦ debit w.id t.converted_amount ]

  -- From the check of the legs to the end.
  unfoldable pub post_remittance :
      SeedCustomer
      → SeedWalletRef
      → SeedCustomer
      → SeedWalletRef
      → SeedWalletRef
      → ℤ
      → Settlement Float
      → Run Seed (Option (BuiltRemittance Float))
  unfolding require_balanced draw random_timestamp_between uuid to_ledger_rows apply_balances
  post_remittance sender source recipient destination treasury_source fee t = do
    require_balanced t.legs
    created_at ←
        draw (random_timestamp_between F M (max_ℤ source.created_at destination.created_at) now)
    remittance_id ← draw (uuid F M)
    leg_rows ← draw (to_ledger_rows F M t.legs remittance_id created_at 0 t.legs)
    apply_balances source destination treasury_source fee t
    pure (
        some (record {
          remittance_row =
              completed_row sender source recipient destination fee t remittance_id created_at;
          leg_rows = leg_rows;
        }))

  -- From the lookup of the treasury's wallet on.
  unfoldable pub settle_remittance :
      SeedCustomer
      → SeedWalletRef
      → SeedCustomer
      → SeedWalletRef
      → Currency
      → ℤ
      → ℤ
      → Run Seed (Option (BuiltRemittance Float))
  unfolding require_treasury same_currency_drafts settle_cross_currency post_remittance
  settle_remittance sender source recipient destination source_currency amount fee = do
    treasury_source ← require_treasury source.currency
    settlement ←
        if is_same source.currency destination.currency
        then pure (some (in_same_currency source destination treasury_source amount fee))
        else settle_cross_currency source destination treasury_source source_currency amount fee
    elim settlement [
      | none ↦ pure none
      | some t ↦ post_remittance sender source recipient destination treasury_source fee t
    ]

  -- From the currency and the fee on.
  unfoldable pub charge_remittance :
      SeedCustomer
      → SeedWalletRef
      → SeedCustomer
      → SeedWalletRef
      → ℤ
      → Run Seed (Option (BuiltRemittance Float))
  unfolding Currency.from Money.from_minor_units calculate settle_remittance
  charge_remittance sender source recipient destination amount = do
    source_currency ← lift (Currency.from source.currency)
    money ← lift (Money.from_minor_units (integer amount) source_currency)
    let fee = (calculate F money).amount_minor_units
    let settled = settle_remittance sender source recipient destination source_currency amount fee
    if ltb_ℤ source.balance (amount +ℤ fee) then pure none else settled

  -- The amount for a share of the balance, which is limited for an unverified sender.
  abbrev pub sampled_amount : Bool → ℤ → Float → ℤ
  sampled_amount kyc_verified balance share =
      let sampled = floor (mul (of_ℤ balance) share) in
      if kyc_verified then sampled else min_ℤ sampled (pos 100000)

  unfoldable pub build_completed_remittance :
      SeedCustomer
      → SeedWalletRef
      → SeedCustomer
      → SeedWalletRef
      → Run Seed (Option (BuiltRemittance Float))
  unfolding draw range charge_remittance
  build_completed_remittance sender source recipient destination = do
    share ← draw (range F M (decimal 1 2) (decimal 35 2))
    let amount = sampled_amount sender.kyc_verified source.balance share
    let charged = charge_remittance sender source recipient destination amount
    if ltb_ℤ amount (pos 100) then pure none else charged
