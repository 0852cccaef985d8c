-- ===== src/Infra/Seed/Ledger/TopUp.antt =====
-- A posting from the treasury to a customer's wallet.
use money_across_borders.Base.{
  String, ℤ, pos, ◌+ℤ◌, ◌-ℤ◌, ◌&&◌, Bool, true, false, List, is_same, if◌then◌else◌, ◌≡◌, ap,
  int_laws,
}
use money_across_borders.Infra.Seed.Types.{SeedWalletRef, SeedLedgerEntryRow}
use money_across_borders.Infra.Seed.Run.{◌>>◌, pure}
use money_across_borders.Infra.Seed.Ledger.{add_balance, credit, debit, top_up_rows}
use money_across_borders.Infra.Seed.Ledger.Posted.{
  net, IsBalanced, credited, post, Posts, map-compose,
}
use money_across_borders.Infra.Seed.Ledger.Traces.{Ends, Traces}

cancel :
    (b : Bool) (a : ℤ)
    → (if b then a else pos 0) +ℤ ((if b then pos 0 -ℤ a else pos 0) +ℤ pos 0) ≡ pos 0
cancel true a = omega int_laws
cancel false a = omega int_laws

move :
    (b c : Bool) (n a : ℤ)
    → (if c
        then (if b then n +ℤ (pos 0 -ℤ a) else n) +ℤ a
        else (if b then n +ℤ (pos 0 -ℤ a) else n))
      ≡ n +ℤ ((if b then pos 0 -ℤ a else pos 0) +ℤ ((if c then a else pos 0) +ℤ pos 0))
move true true n a = omega int_laws
move true false n a = omega int_laws
move false true n a = omega int_laws
move false false n a = omega int_laws

module _ (debit_id credit_id treasury_id : String) (wallet : SeedWalletRef) (amount : ℤ)
    (transaction_id description : String) (created_at : ℤ) where
  abbrev rows : List SeedLedgerEntryRow
  rows =
      top_up_rows debit_id credit_id treasury_id wallet amount transaction_id description created_at

  rows-IsBalanced : IsBalanced rows
  unfolding IsBalanced net
  rows-IsBalanced t c = cancel (is_same transaction_id t && is_same wallet.currency c) amount

  rows-post :
      (x : SeedWalletRef)
      → add_balance wallet.id amount (add_balance treasury_id (pos 0 -ℤ amount) x) ≡ post rows x
  unfolding post credited
  rows-post x =
      ap (λ n. record x { balance = n })
        (move (is_same x.id treasury_id) (is_same x.id wallet.id) x.balance amount)

  pub top_up_Traces :
      Traces (λ es. es) (debit treasury_id amount >> credit wallet.id amount >> pure rows)
  unfolding Ends Traces Posts debit credit
  top_up_Traces s =
      let both =
        map-compose (add_balance treasury_id (pos 0 -ℤ amount)) (add_balance wallet.id amount)
          (post rows) rows-post in
      (both s.wallets, both s.treasury, rows-IsBalanced)
