-- ===== src/Application/SendRemittance/Prepared.antt =====
-- What is known of a deal that `prepare` returns.
use money_across_borders.Base.{pos, ◌≤ℤ◌, true, false, some, inl, inr, ◌≡◌, arith}
use money_across_borders.Domain.Errors.{ok, ◌>>=◌, Result-cases}
use money_across_borders.Domain.Numbers.{Floats}
use money_across_borders.Domain.Currency.{Currency}
use money_across_borders.Domain.Currency
use money_across_borders.Domain.Money.{Money}
use money_across_borders.Domain.Money
use money_across_borders.Domain.Wallet.{Wallet}
use money_across_borders.Domain.Wallet
use money_across_borders.Store.{World, Environment, account_id_from}
use money_across_borders.Store.Repositories.{find_by_account_id_and_currency}
use money_across_borders.Application.SendRemittance.{
  SendRemittanceInput, Ports, Deal, treasury_account_id, get_treasury_wallet, convert_at_rate,
  prepare,
}

module _ (F : Floats) where
  open F use {Float}

  -- The wallets are those of the accounts in the two currencies, the amounts are as the ports say,
  -- and the sender's wallet has been debited.
  pub record IsPrepared (P : Ports Float) (w : World Float) (dc : Currency) (d : Deal Float)
      : Type 0 where
    pub source_found :
        find_by_account_id_and_currency d.sender_account_id d.amount.currency w.wallets
        ≡ some d.source_wallet
    pub destination_found :
        find_by_account_id_and_currency d.recipient_account_id dc w.wallets
        ≡ some d.destination_wallet
    pub treasury_source_found :
        find_by_account_id_and_currency treasury_account_id d.amount.currency w.wallets
        ≡ some d.treasury_source_wallet
    pub treasury_destination_found :
        d.is_same_currency ≡ false
        → find_by_account_id_and_currency treasury_account_id dc w.wallets
          ≡ some d.treasury_destination_wallet
    pub same : d.is_same_currency ≡ Currency.equals d.amount.currency dc
    pub same_amount : d.is_same_currency ≡ true → d.converted_amount ≡ d.amount
    pub other_amount :
        d.is_same_currency ≡ false
        → convert_at_rate F P d.amount.currency dc d.amount ≡ ok d.converted_amount
    pub fee_charged : d.fee ≡ P.calculate d.amount
    pub amount_nonneg : pos 0 ≤ℤ d.amount.amount_minor_units
    pub debited :
        (Money.add d.amount d.fee >>= λ total. Wallet.debit d.source_wallet total)
        ≡ ok d.updated_source_wallet
    pub approved : (P.check d.sender_account_id d.amount w >>= λ r. ok r.approved) ≡ ok true

module _ (F : Floats) (E : Environment) (P : Ports F.Float) where
  open F use {Float}

  pub prepare-IsPrepared :
      (input : SendRemittanceInput) (w : World Float) (d : Deal Float) (dc : Currency)
      → prepare F E P input w ≡ ok d
      → Currency.from input.destination_currency ≡ ok dc
      → IsPrepared F P w dc d
  unfolding prepare get_treasury_wallet Money.from_minor_units
  prepare-IsPrepared input w d dc h e = ground arith

  -- The destination's currency is one that the program supports.
  pub prepare_destination :
      (input : SendRemittanceInput) (w : World Float) (d : Deal Float)
      → prepare F E P input w ≡ ok d
      → (dc : Currency) × (Currency.from input.destination_currency ≡ ok dc)
  unfolding prepare
  prepare_destination input w d h = elim (Result-cases (Currency.from input.destination_currency)) [
    | inl found ↦ found
    | inr (e, refused) ↦ absurd (ground arith)
  ]

  -- The accounts and the currency of the amount are the input's.
  pub prepare_input :
      (input : SendRemittanceInput) (w : World Float) (d : Deal Float)
      → prepare F E P input w ≡ ok d
      → (d.sender_account_id ≡ input.sender_account_id)
        × (d.recipient_account_id ≡ input.recipient_account_id)
        × (Currency.from input.source_currency ≡ ok d.amount.currency)
        × (Money.from_minor_units input.amount_minor_units d.amount.currency ≡ ok d.amount)
  unfolding prepare account_id_from Money.from_minor_units
  prepare_input input w d h = ground arith
