-- ===== src/Application/SendRemittance/Settled.antt =====
-- The legs that `settle` returns balance, whatever the currencies and the amounts.
use money_across_borders.Base.{
  String, ℤ, pos, ◌-ℤ◌, Bool, true, false, List, ◌≡◌, refl, is_same, if◌then◌else◌, arith, int_laws,
}
use money_across_borders.Domain.Errors.{ok}
use money_across_borders.Domain.Money.{Money}
use money_across_borders.Domain.Wallet.{Wallet}
use money_across_borders.Domain.Statuses.{debit, credit}
use money_across_borders.Domain.Ledger.{LedgerLegDraft, assert_balanced_per_currency}
use money_across_borders.Domain.Ledger.Balance.{net, leg_net, balanced_passes}
use money_across_borders.Application.SendRemittance.{
  Deal, Settlement, leg, settle, same_currency_legs, cross_currency_legs,
}

-- The part of a sum of money that counts in a currency code.
share : String → Money → ℤ
share k m = if is_same m.currency.code k then m.amount_minor_units else pos 0

leg_net-debit :
    (k : String) (w : Wallet) (m : Money) (t : String) → leg_net k (leg w debit m t) ≡ share k m
unfolding leg_net share
leg_net-debit k w m t = ground arith

leg_net-credit :
    (k : String) (w : Wallet) (m : Money) (t : String)
    → leg_net k (leg w credit m t) ≡ pos 0 -ℤ share k m
unfolding leg_net share
leg_net-credit k w m t = grind int_laws

ruleset shares = (leg_net-debit, leg_net-credit)

same_legs-net :
    (k : String) (source destination treasury : Wallet) (amount fee : Money)
    → net k (same_currency_legs source destination treasury amount fee) ≡ pos 0
unfolding net
same_legs-net k source destination treasury amount fee = simp shares (omega int_laws)

cross_legs-net :
    (k : String) (source destination treasury_source treasury_destination : Wallet)
    (amount fee converted : Money)
    → net k (
        cross_currency_legs source destination treasury_source treasury_destination amount fee
          converted)
      ≡ pos 0
unfolding net
cross_legs-net k source destination treasury_source treasury_destination amount fee converted =
    simp shares (omega int_laws)

module _ {Float : Type 0} where
  -- The legs, by whether the currencies are the same.
  abbrev pub legs_of : Deal Float → List LedgerLegDraft
  legs_of d =
      if d.is_same_currency
      then same_currency_legs d.source_wallet d.destination_wallet d.treasury_source_wallet d.amount
          d.fee
      else cross_currency_legs d.source_wallet d.destination_wallet d.treasury_source_wallet
          d.treasury_destination_wallet d.amount d.fee d.converted_amount

  pub settle-legs : (d : Deal Float) (s : Settlement) → settle d ≡ ok s → s.legs ≡ legs_of d
  unfolding settle
  settle-legs d s h = ground arith

  pub settle-net :
      (d : Deal Float) (s : Settlement) (k : String) → settle d ≡ ok s → net k s.legs ≡ pos 0
  settle-net d s k h = rw (settle-legs d s h) (go d.is_same_currency refl)
    where
      go : (b : Bool) → d.is_same_currency ≡ b → net k (legs_of d) ≡ pos 0
      go true e = rw e (
          same_legs-net k d.source_wallet d.destination_wallet d.treasury_source_wallet d.amount
            d.fee)
      go false e = rw e (
          cross_legs-net k d.source_wallet d.destination_wallet d.treasury_source_wallet
            d.treasury_destination_wallet d.amount d.fee d.converted_amount)

  -- The legs that a deal settles to, in one currency or in two, pass the check of the ledger
  -- service.
  pub settle_passes :
      (d : Deal Float) (s : Settlement)
      → settle d ≡ ok s
      → assert_balanced_per_currency s.legs ≡ ok tt
  settle_passes d s h = balanced_passes s.legs (λ k. settle-net d s k h)
