-- ===== src/Application/SendRemittance/Balances.antt =====
-- The wallets and the ledger before and after a remittance: what each wallet gains is what the
-- entries of the posting credit it with, less what they debit.
use money_across_borders.Base.{
  ℕ, suc, String, ℤ, pos, ◌+ℤ◌, ◌-ℤ◌, List, [], ◌∷◌, ◌++◌, ◌≡◌, refl, is_same, if◌then◌else◌,
  int_laws,
}
use money_across_borders.Domain.Money.{Money}
use money_across_borders.Domain.Entities.{LedgerEntry}
use money_across_borders.Domain.Wallet.{Wallet}
use money_across_borders.Domain.Statuses.{EntryDirection, debit, credit, is_debit}
use money_across_borders.Domain.Ledger.{LedgerLegDraft}
use money_across_borders.Store.{Environment}
use money_across_borders.Application.SendRemittance.{leg}
use money_across_borders.Application.SendRemittance.Committed.{entries_from}

-- What an amount in a direction adds to the balance of the wallet that it stands for.
unfoldable pub effect : EntryDirection → ℤ → ℤ
unfolding is_debit
effect direction amount = if is_debit direction then pos 0 -ℤ amount else amount

-- Credits less debits of the entries of one wallet.
unfoldable pub ledger_balance : String → List LedgerEntry → ℤ
ledger_balance id [] = pos 0
ledger_balance id (e ∷ es) =
    (if is_same e.wallet_id id then effect e.direction e.money.amount_minor_units else pos 0)
    +ℤ ledger_balance id es

-- The same of legs.
unfoldable pub legs_balance : String → List LedgerLegDraft → ℤ
legs_balance id [] = pos 0
legs_balance id (l ∷ legs) =
    (if is_same l.wallet_id id then effect l.direction l.money.amount_minor_units else pos 0)
    +ℤ legs_balance id legs

pub ledger_balance-append :
    (id : String) (es fs : List LedgerEntry)
    → ledger_balance id (es ++ fs) ≡ ledger_balance id es +ℤ ledger_balance id fs
unfolding ledger_balance
ledger_balance-append id [] fs = omega int_laws
ledger_balance-append id (e ∷ es) fs = rw (ledger_balance-append id es fs) (omega int_laws)

pub ledger_balance-entries_from :
    (E : Environment) (t : String) (at g : ℕ) (id : String) (legs : List LedgerLegDraft)
    → ledger_balance id (entries_from E t at g legs) ≡ legs_balance id legs
unfolding ledger_balance legs_balance entries_from
ledger_balance-entries_from E t at g id [] = refl
ledger_balance-entries_from E t at g id (l ∷ legs) =
    rw (ledger_balance-entries_from E t at (suc g) id legs)

-- What a debit or a credit of `m` adds to the balance of the wallet `id`.
unfoldable pub taken : String → Wallet → Money → ℤ
taken id w m = if is_same w.id id then pos 0 -ℤ m.amount_minor_units else pos 0

unfoldable pub given : String → Wallet → Money → ℤ
given id w m = if is_same w.id id then m.amount_minor_units else pos 0

pub legs_balance-debit :
    (id : String) (w : Wallet) (m : Money) (t : String) (legs : List LedgerLegDraft)
    → legs_balance id (leg w debit m t ∷ legs) ≡ taken id w m +ℤ legs_balance id legs
unfolding legs_balance effect taken
legs_balance-debit id w m t legs = refl

pub legs_balance-credit :
    (id : String) (w : Wallet) (m : Money) (t : String) (legs : List LedgerLegDraft)
    → legs_balance id (leg w credit m t ∷ legs) ≡ given id w m +ℤ legs_balance id legs
unfolding legs_balance effect given
legs_balance-credit id w m t legs = refl
