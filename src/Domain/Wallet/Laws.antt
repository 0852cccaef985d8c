-- ===== src/Domain/Wallet/Laws.antt =====
-- What a credit and a debit do to a wallet, and when they throw.
use money_across_borders.Base.{
  ◌+ℤ◌, ◌-ℤ◌, ◌≤ℤ◌, leb_ℤ, pos, ◌≡◌, arith, int_laws, is_same, if◌then◌else◌,
}
use money_across_borders.Domain.Errors.{ok, err, currency_mismatch, insufficient_funds}
use money_across_borders.Domain.Money.{Money}
use money_across_borders.Domain.Wallet.{Wallet, credit, debit}

-- A wallet keeps its balance in its own currency.
abbrev pub IsDenominated : Wallet → Type 0
IsDenominated w = w.balance.currency.code ≡ w.currency.code

-- `w'` is `w` with another balance in the same currency.
pub record Rebalanced (w w' : Wallet) : Type 0 where
  pub id : w'.id ≡ w.id
  pub account_id : w'.account_id ≡ w.account_id
  pub currency : w'.currency ≡ w.currency
  pub balance_currency : w'.balance.currency ≡ w.balance.currency

pub credit-Rebalanced : (w w' : Wallet) (m : Money) → credit w m ≡ ok w' → Rebalanced w w'
unfolding credit
credit-Rebalanced w w' m h = ground arith

pub debit-Rebalanced : (w w' : Wallet) (m : Money) → debit w m ≡ ok w' → Rebalanced w w'
unfolding debit
debit-Rebalanced w w' m h = ground arith

pub credit-balance :
    (w w' : Wallet) (m : Money)
    → credit w m ≡ ok w'
    → w'.balance.amount_minor_units ≡ w.balance.amount_minor_units +ℤ m.amount_minor_units
unfolding credit
credit-balance w w' m h = ground arith

pub debit-balance :
    (w w' : Wallet) (m : Money)
    → debit w m ≡ ok w'
    → w'.balance.amount_minor_units ≡ w.balance.amount_minor_units -ℤ m.amount_minor_units
unfolding debit
debit-balance w w' m h = ground arith

pub debit_covered :
    (w w' : Wallet) (m : Money)
    → debit w m ≡ ok w'
    → m.amount_minor_units ≤ℤ w.balance.amount_minor_units
unfolding debit
debit_covered w w' m h = ground arith

pub credit-code :
    (w w' : Wallet) (m : Money) → credit w m ≡ ok w' → m.currency.code ≡ w.currency.code
unfolding credit
credit-code w w' m h = ground arith

pub debit-code : (w w' : Wallet) (m : Money) → debit w m ≡ ok w' → m.currency.code ≡ w.currency.code
unfolding debit
debit-code w w' m h = ground arith

-- A debit of a wallet whose balance is in its own currency takes the amount from the balance and
-- changes nothing else if the currency is the wallet's and the balance covers the amount, and
-- otherwise throws the currency-mismatch error or, in the wallet's currency, the
-- insufficient-funds error.
pub debit_lem :
    (w : Wallet) (m : Money)
    → IsDenominated w
    → debit w m ≡ (
        if is_same m.currency.code w.currency.code
        then (if leb_ℤ m.amount_minor_units w.balance.amount_minor_units
            then ok (record w {
              balance = record {
                amount_minor_units = w.balance.amount_minor_units -ℤ m.amount_minor_units;
                currency = w.balance.currency;
              };
            })
            else err (insufficient_funds w.id))
        else err (currency_mismatch w.currency.code m.currency.code))
unfolding debit
debit_lem w m h = grind int_laws

-- For a wallet whose balance is in its own currency and not negative, a debit of the amount that
-- a credit has given returns the wallet as it was.
pub debit-credit :
    (w w' : Wallet) (m : Money)
    → IsDenominated w
    → pos 0 ≤ℤ w.balance.amount_minor_units
    → credit w m ≡ ok w'
    → debit w' m ≡ ok w
unfolding credit debit
debit-credit w w' m hd hn h = grind int_laws
