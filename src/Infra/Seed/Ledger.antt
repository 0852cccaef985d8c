-- ===== src/Infra/Seed/Ledger.antt =====
-- Postings of the pipeline: src/infra/seed/generators/ledger-math.ts, and the changes of balances
-- that go with them.
pub mod Posted
pub mod Traces
pub mod TopUp
pub mod Moves
use Prim.Native.String.{◌++◌ as append}
use money_across_borders.Base.{
  ℕ, String, ℤ, pos, ◌+ℤ◌, ◌-ℤ◌, ◌==◌, Bool, Option, none, some, List, [], ◌∷◌, map, find, filter,
  is_same, if◌then◌else◌,
}
use money_across_borders.Domain.Errors.{DomainError, Result, ok, err, invalid}
use money_across_borders.Domain.Ledger.{Nets, get_net, set_net, refuse_nonzero}
use money_across_borders.Infra.Seed.Types.{SeedWalletRef, SeedLedgerEntryRow, Seed}
use money_across_borders.Infra.Seed.Run.{Run, lift}

-- A direction is 1 for a debit and 2 for a credit.
pub record LegDraft : Type 0 where
  pub wallet_id : String
  pub currency : String
  pub direction : ℕ
  pub amount_minor_units : ℤ

abbrev signed_leg : LegDraft → ℤ
signed_leg leg =
    if leg.direction == 1 then leg.amount_minor_units else pos 0 -ℤ leg.amount_minor_units

unfoldable pub add_drafts : Nets → List LegDraft → Nets
add_drafts m [] = m
add_drafts m (leg ∷ legs) =
    add_drafts (set_net leg.currency (get_net leg.currency m +ℤ signed_leg leg) m) legs

-- The loop over the nets is that of the ledger service.
unfoldable pub assert_balanced : List LegDraft → Result (Unit {0})
unfolding add_drafts refuse_nonzero
assert_balanced legs = refuse_nonzero (add_drafts [] legs)

unfoldable pub require_balanced : List LegDraft → Run Seed (Unit {0})
unfolding assert_balanced
require_balanced legs = lift (assert_balanced legs)

-- `wallet.balance += amount`, for the object with an id.
abbrev pub add_balance : String → ℤ → SeedWalletRef → SeedWalletRef
add_balance id amount w = record w {
  balance = if is_same w.id id then w.balance +ℤ amount else w.balance;
}

unfoldable pub credit : String → ℤ → Run Seed (Unit {0})
credit id amount s = ok (
  tt,
  record s {
    wallets = map (add_balance id amount) s.wallets;
    treasury = map (add_balance id amount) s.treasury;
  },
)

-- `wallet.balance -= amount`
unfoldable pub debit : String → ℤ → Run Seed (Unit {0})
unfolding credit
debit id amount = credit id (pos 0 -ℤ amount)

-- `walletsByAccountId.get(accountId) ?? []`
unfoldable pub wallets_of : String → Seed → List SeedWalletRef
wallets_of account_id s = filter (λ w. is_same w.account_id account_id) s.wallets

-- `treasuryByCurrency.get(currency)`
unfoldable pub treasury_of : String → Seed → Option SeedWalletRef
treasury_of currency s = find (λ w. is_same w.currency currency) s.treasury

-- The message goes on with advice.
abbrev pub missing : String → DomainError
missing currency = invalid (append "No treasury wallet found for currency " currency)

-- The treasury's wallet of a currency, or a throw.
unfoldable pub require_treasury : String → Run Seed SeedWalletRef
unfolding treasury_of
require_treasury currency s = elim (treasury_of currency s) [
  | none ↦ err (missing currency)
  | some w ↦ ok (w, s)
]

-- A look at the balances.
unfoldable pub read : {A : Type 0} → (Seed → A) → Run Seed A
read f s = ok (f s, s)

-- Draws of the random generator, which leave the balances.
unfoldable pub draw : {A : Type 0} → Run ℕ A → Run Seed A
draw m s = elim (m s.rng) [ err e ↦ err e | ok r ↦ ok (r.0, record s { rng = r.1 }) ]

-- The two legs of a posting from the treasury to a customer.
abbrev pub top_up_legs : String → SeedWalletRef → ℤ → List LegDraft
top_up_legs treasury_id wallet actual =
    (record {
      wallet_id = treasury_id;
      currency = wallet.currency;
      direction = 1;
      amount_minor_units = actual;
    })
    ∷ (record {
      wallet_id = wallet.id;
      currency = wallet.currency;
      direction = 2;
      amount_minor_units = actual;
    })
    ∷ []

-- The two rows of a posting from the treasury to a customer, whose ids are given.
abbrev pub top_up_rows :
    String → String → String → SeedWalletRef → ℤ → String → String → ℤ → List SeedLedgerEntryRow
top_up_rows debit_id credit_id treasury_id wallet amount transaction_id description created_at =
    (record {
      id = debit_id;
      wallet_id = treasury_id;
      direction_id = 1;
      amount_minor_units = amount;
      currency = wallet.currency;
      transaction_id = transaction_id;
      description = description;
      created_at = created_at;
    })
    ∷ (record {
      id = credit_id;
      wallet_id = wallet.id;
      direction_id = 2;
      amount_minor_units = amount;
      currency = wallet.currency;
      transaction_id = transaction_id;
      description = description;
      created_at = created_at;
    })
    ∷ []
