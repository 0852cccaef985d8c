-- ===== src/Store/Laws.antt =====
-- Wallets by id, before and after a save.
use money_across_borders.Base.{
  String, ℤ, pos, ◌+ℤ◌, false, ◌&&◌, none, some, List, [], ◌∷◌, ◌≡◌, refl, is_same, sum,
  find-upsert, sum-upsert, if◌then◌else◌, arith,
}
use money_across_borders.Domain.Wallet.{Wallet}
use money_across_borders.Domain.Currency.{Currency}
use money_across_borders.Store.Repositories.{
  save_wallet, find_wallet_by_id, find_by_account_id_and_currency,
}

-- No two wallets have one id.
abbrev pub HasUniqueIds : List Wallet → Type 0
HasUniqueIds [] = Unit
HasUniqueIds (x ∷ xs) = (find_wallet_by_id x.id xs ≡ none) × HasUniqueIds xs

pub find-save_wallet :
    (id : String) (a : Wallet) (ws : List Wallet)
    → find_wallet_by_id id (save_wallet a ws)
      ≡ (if is_same a.id id then some a else find_wallet_by_id id ws)
unfolding find_wallet_by_id save_wallet
find-save_wallet id a ws = find-upsert (λ (x : Wallet). x.id) id a ws

-- A wallet that is found by account and currency is the one with its id.
pub find_own_id :
    (account_id : String) (c : Currency) (ws : List Wallet) (x : Wallet)
    → HasUniqueIds ws
    → find_by_account_id_and_currency account_id c ws ≡ some x
    → find_wallet_by_id x.id ws ≡ some x
unfolding find_wallet_by_id find_by_account_id_and_currency
find_own_id account_id c [] x h e = cc
find_own_id account_id c (y ∷ ws) x h e = ground (arith, find_own_id account_id c ws x h.1)

pub find_sound :
    (account_id : String) (c : Currency) (ws : List Wallet) (x : Wallet)
    → find_by_account_id_and_currency account_id c ws ≡ some x
    → (x.account_id ≡ account_id) × (x.currency.code ≡ c.code)
unfolding find_by_account_id_and_currency
find_sound account_id c [] x e = cc
find_sound account_id c (y ∷ ws) x e = ground (arith, find_sound account_id c ws x)

-- The balance of the wallet with an id, 0 where there is none.
unfoldable pub balance_of : String → List Wallet → ℤ
balance_of id ws = elim (find_wallet_by_id id ws) [
  | none ↦ pos 0
  | some x ↦ x.balance.amount_minor_units
]

pub balance_of-save_wallet :
    (id : String) (a : Wallet) (ws : List Wallet)
    → balance_of id (save_wallet a ws)
      ≡ (if is_same a.id id then a.balance.amount_minor_units else balance_of id ws)
unfolding balance_of
balance_of-save_wallet id a ws = ground (arith, find-save_wallet id a ws)

pub balance_of_found :
    (account_id : String) (c : Currency) (ws : List Wallet) (x : Wallet)
    → HasUniqueIds ws
    → find_by_account_id_and_currency account_id c ws ≡ some x
    → balance_of x.id ws ≡ x.balance.amount_minor_units
unfolding balance_of
balance_of_found account_id c ws x h e = ground (arith, find_own_id account_id c ws x h e)

-- Wallets of two accounts, or in two currencies, have two ids.
pub id_differs :
    (a b : String) (c d : Currency) (ws : List Wallet) (x y : Wallet)
    → HasUniqueIds ws
    → find_by_account_id_and_currency a c ws ≡ some x
    → find_by_account_id_and_currency b d ws ≡ some y
    → is_same a b && is_same c.code d.code ≡ false
    → is_same x.id y.id ≡ false
id_differs a b c d ws x y h e f ne = ground (
  arith,
  find_own_id a c ws x h e,
  find_own_id b d ws y h f,
  find_sound a c ws x e,
  find_sound b d ws y f,
)

-- A save under an id that is there keeps the ids apart.
find_none-save_wallet :
    (id : String) (a : Wallet) (ws : List Wallet)
    → is_same a.id id ≡ false
    → find_wallet_by_id id ws ≡ none
    → find_wallet_by_id id (save_wallet a ws) ≡ none
find_none-save_wallet id a ws ne e = rw (find-save_wallet id a ws, ne) e

pub save_wallet-HasUniqueIds :
    (a : Wallet) (ws : List Wallet) → HasUniqueIds ws → HasUniqueIds (save_wallet a ws)
unfolding save_wallet find_wallet_by_id
save_wallet-HasUniqueIds a [] h = (refl, tt)
save_wallet-HasUniqueIds a (x ∷ ws) h =
    ground (arith, save_wallet-HasUniqueIds a ws h.1, find_none-save_wallet x.id a ws)

-- The money that the wallets of a currency code hold together.
unfoldable pub held : String → Wallet → ℤ
held k w = if is_same w.currency.code k then w.balance.amount_minor_units else pos 0

unfoldable pub total : String → List Wallet → ℤ
unfolding held
total k = sum (held k)

pub total-save_wallet :
    (k : String) (a old : Wallet) (ws : List Wallet)
    → find_wallet_by_id a.id ws ≡ some old
    → total k (save_wallet a ws) +ℤ held k old ≡ total k ws +ℤ held k a
unfolding total save_wallet find_wallet_by_id
total-save_wallet k a old ws e = sum-upsert (λ (x : Wallet). x.id) (held k) a old ws e
