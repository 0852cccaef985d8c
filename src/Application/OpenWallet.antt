-- ===== src/Application/OpenWallet.antt =====
-- OpenWalletUseCase of src/application/wallet/uses-cases/open-wallet-use-case.ts, and what it keeps
-- true of the wallets.
pub mod Unique
use money_across_borders.Base.{String, Bool, Option, none, some}
use money_across_borders.Domain.Errors.{Result, ok, err, wallet_already_exists}
use money_across_borders.Domain.Numbers.{Number}
use money_across_borders.Domain.Currency.{Currency, from}
use money_across_borders.Domain.Money.{from_minor_units}
use money_across_borders.Domain.Statuses.{active_wallet}
use money_across_borders.Domain.Wallet.{Wallet}
use money_across_borders.Store.{
  World, Environment, Action, ◌>>=◌, ◌>>◌, pure, lift, reads, modify, generate_id, now,
  account_id_from,
}
use money_across_borders.Store.Repositories.{save_wallet, find_by_account_id_and_currency}

pub record OpenWalletInput : Type 0 where
  pub account_id : String
  pub currency : String
  pub initial_balance_minor_units : Number

-- `if (existing) throw new WalletAlreadyExistsError(…)`
abbrev pub refuse_existing : OpenWalletInput → Option Wallet → Result (Unit {0})
refuse_existing input none = ok tt
refuse_existing input (some existing) = err (wallet_already_exists input.account_id input.currency)

module _ (E : Environment) {Float : Type 0} where
  -- The wallet that `OpenWalletOutput.from` prints.
  unfoldable pub open_wallet : OpenWalletInput → Action Float Wallet
  unfolding account_id_from from find_by_account_id_and_currency from_minor_units save_wallet
  open_wallet input = do
    account_id ← lift (account_id_from E input.account_id)
    currency ← lift (from input.currency)
    reads
        (λ w. refuse_existing input (find_by_account_id_and_currency account_id currency w.wallets))
    id ← generate_id E
    balance ← lift (from_minor_units input.initial_balance_minor_units currency)
    at ← now E
    let wallet : Wallet = record {
      id = id;
      account_id = account_id;
      currency = currency;
      balance = balance;
      status = active_wallet;
      created_at = at;
    }
    modify (λ w. record w { wallets = save_wallet wallet w.wallets })
    pure wallet
