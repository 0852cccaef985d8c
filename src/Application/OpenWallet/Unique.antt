-- ===== src/Application/OpenWallet/Unique.antt =====
-- An account has at most one wallet in a currency.
use money_across_borders.Base.{
  String, none, some, List, [], ◌∷◌, ◌≡◌, refl, is_same_refl, arith, sym,
}
use mathlib.Core.Path.{subst}
use money_across_borders.Domain.Errors.{ok}
use money_across_borders.Domain.Numbers.{integer}
use money_across_borders.Domain.Currency.{Currency}
use money_across_borders.Domain.Wallet.{Wallet}
use money_across_borders.Store.{World, Environment}
use money_across_borders.Store.Repositories.{
  save_wallet, find_by_account_id_and_currency, find_wallet_by_id,
}
use money_across_borders.Application.OpenWallet.{OpenWalletInput, open_wallet}

-- No two wallets have one account and one currency.
abbrev pub HasOneEach : List Wallet → Type 0
HasOneEach [] = Unit
HasOneEach (x ∷ xs) =
    (find_by_account_id_and_currency x.account_id x.currency xs ≡ none) × HasOneEach xs

-- A save under a new id goes to the end.
pub find-save_new :
    (a : Wallet) (account_id : String) (c : Currency) (ws : List Wallet)
    → find_wallet_by_id a.id ws ≡ none
    → find_by_account_id_and_currency account_id c (save_wallet a ws)
      ≡ elim (find_by_account_id_and_currency account_id c ws) [
        | some x ↦ some x
        | none ↦ find_by_account_id_and_currency account_id c (a ∷ [])
      ]
unfolding find_wallet_by_id find_by_account_id_and_currency save_wallet
find-save_new a account_id c [] h = refl
find-save_new a account_id c (x ∷ ws) h = ground (arith, find-save_new a account_id c ws)

pub find-saved_new :
    (a : Wallet) (ws : List Wallet)
    → find_wallet_by_id a.id ws ≡ none
    → find_by_account_id_and_currency a.account_id a.currency ws ≡ none
    → find_by_account_id_and_currency a.account_id a.currency (save_wallet a ws) ≡ some a
unfolding find_by_account_id_and_currency
find-saved_new a ws h e = ground (
  arith,
  find-save_new a a.account_id a.currency ws h,
  is_same_refl a.account_id,
  is_same_refl a.currency.code,
)

save_new-HasOneEach :
    (a : Wallet) (ws : List Wallet)
    → find_wallet_by_id a.id ws ≡ none
    → find_by_account_id_and_currency a.account_id a.currency ws ≡ none
    → HasOneEach ws
    → HasOneEach (save_wallet a ws)
unfolding find_wallet_by_id find_by_account_id_and_currency save_wallet
save_new-HasOneEach a [] h e o = ground arith
save_new-HasOneEach a (x ∷ ws) h e o =
    ground (
      arith,
      save_new-HasOneEach a ws,
      find-save_new a x.account_id x.currency ws,
      is_same_refl a.id,
    )

-- What a call that returns has read and written.
open_wallet-ran :
    (E : Environment) {Float : Type 0} (input : OpenWalletInput) (w : World Float) (x : Wallet)
    → (open_wallet E input w).0 ≡ ok x
    → ((open_wallet E input w).1.wallets ≡ save_wallet x w.wallets)
      × (x.id ≡ E.uuid_v7 w.generated)
      × (x.account_id ≡ input.account_id)
      × (find_by_account_id_and_currency x.account_id x.currency w.wallets ≡ none)
      × (input.initial_balance_minor_units ≡ integer x.balance.amount_minor_units)
unfolding open_wallet
open_wallet-ran E input w x e = ground arith

-- Where the id drawn is new and no account has two wallets in one currency, opening a wallet, if
-- it succeeds, keeps that no account has two wallets in one currency; the new wallet is found by
-- its account and currency, and its balance is the number asked for, which was an integer.
pub open_wallet-HasOneEach :
    (E : Environment) {Float : Type 0} (input : OpenWalletInput) (w : World Float) (x : Wallet)
    → find_wallet_by_id (E.uuid_v7 w.generated) w.wallets ≡ none
    → HasOneEach w.wallets
    → (open_wallet E input w).0 ≡ ok x
    → let after = (open_wallet E input w).1.wallets in
      HasOneEach after
      × (find_by_account_id_and_currency input.account_id x.currency after ≡ some x)
      × (input.initial_balance_minor_units ≡ integer x.balance.amount_minor_units)
open_wallet-HasOneEach E input w x h o e =
    let (saved, named, owned, fresh, asked) = open_wallet-ran E input w x e in
    let unused = subst (λ i. find_wallet_by_id i w.wallets ≡ none) (sym named) h in
    let one = save_new-HasOneEach x w.wallets unused fresh o in
    let found = find-saved_new x w.wallets unused fresh in
    (subst HasOneEach (sym saved) one, cc (saved, owned, found), asked)
