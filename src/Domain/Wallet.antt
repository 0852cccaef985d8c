-- ===== src/Domain/Wallet.antt =====
-- src/domain/wallet/entities/wallet.ts
pub mod Laws
use money_across_borders.Base.{ℕ, String, not}
use money_across_borders.Domain.Errors.{
  Result, ok, ◌>>=◌, ◌>>◌, throw_if, currency_mismatch, insufficient_funds,
}
use money_across_borders.Domain.Currency.{Currency}
use money_across_borders.Domain.Currency
use money_across_borders.Domain.Money.{Money}
use money_across_borders.Domain.Money
use money_across_borders.Domain.Statuses.{WalletStatus}

pub record Wallet : Type 0 where
  pub id : String
  pub account_id : String
  pub currency : Currency
  pub balance : Money
  pub status : WalletStatus
  pub created_at : ℕ

unfoldable pub assert_same_currency : Wallet → Money → Result (Unit {0})
unfolding Currency.equals
assert_same_currency w amount =
    throw_if (not (Currency.equals amount.currency w.currency))
      (currency_mismatch w.currency.code amount.currency.code)

unfoldable pub credit : Wallet → Money → Result Wallet
unfolding assert_same_currency Money.add
credit w amount = do
  assert_same_currency w amount
  balance ← Money.add w.balance amount
  ok (record w { balance = balance })

unfoldable pub debit : Wallet → Money → Result Wallet
unfolding assert_same_currency Money.is_greater_than_or_equal Money.subtract
debit w amount = do
  assert_same_currency w amount
  enough ← Money.is_greater_than_or_equal w.balance amount
  throw_if (not enough) (insufficient_funds w.id)
  balance ← Money.subtract w.balance amount
  ok (record w { balance = balance })
