-- ===== src/Application/SendRemittance/SelfTransfer.antt =====
-- A remittance from an account to itself in one currency: the sender's wallet is read twice and
-- saved twice, and the credited copy overwrites the debited one.
use mathlib.Core.Path.{subst}
use money_across_borders.Base.{
  String, ℤ, pos, ◌+ℤ◌, ◌-ℤ◌, true, false, some, List, ◌≡◌, ◌≢◌, ap, ◌∙◌, is_same, is_same_refl,
  arith, int_laws,
}
use money_across_borders.Domain.Errors.{ok}
use money_across_borders.Domain.Numbers.{Floats}
use money_across_borders.Domain.Currency.{Currency}
use money_across_borders.Domain.Currency
use money_across_borders.Domain.Entities.{Remittance}
use money_across_borders.Domain.Wallet.{Wallet}
use money_across_borders.Domain.Wallet.Laws.{Rebalanced}
use money_across_borders.Store.{World, Environment}
use money_across_borders.Store.Laws.{
  HasUniqueIds, find-save_wallet, find_own_id, find_sound, id_differs, total, total-save_wallet,
}
use money_across_borders.Store.Repositories.{save_wallet, find_wallet_by_id}
use money_across_borders.Application.SendRemittance.{
  SendRemittanceInput, Ports, treasury_account_id,
}
use money_across_borders.Application.SendRemittance.Execute.{execute}
use money_across_borders.Application.SendRemittance.Prepared.{prepare_destination, prepare_input}
use money_across_borders.Application.SendRemittance.Committed.{committed, saved_wallets}
use money_across_borders.Application.SendRemittance.Reconciled.{settle-IsSettled, debit-total}
use money_across_borders.Application.SendRemittance.Correct.{
  execute-Ran, facts, prepare-IsDrawn, accounts_differ,
}
use money_across_borders.Application.SendRemittance.Totals.{
  in_code, held-Rebalanced, total_moved, minus,
}

-- One wallet in two copies, of which the second is saved over the first, and then a third wallet.
module _ (k : String) (old debited credited treasury treasury' : Wallet) (ws : List Wallet)
    (a f : ℤ) (first : Rebalanced old debited) (second : Rebalanced old credited)
    (third : Rebalanced treasury treasury')
    (taken : debited.balance.amount_minor_units ≡ old.balance.amount_minor_units -ℤ (a +ℤ f))
    (given : credited.balance.amount_minor_units ≡ old.balance.amount_minor_units +ℤ a)
    (earned : treasury'.balance.amount_minor_units ≡ treasury.balance.amount_minor_units +ℤ f)
    (apart : is_same old.id treasury.id ≡ false) (there : find_wallet_by_id old.id ws ≡ some old)
    (treasury_there : find_wallet_by_id treasury.id ws ≡ some treasury) where
  overwritten :
      total k (save_wallet credited (save_wallet debited ws))
      ≡ total k ws +ℤ in_code k old.currency.code a
  overwritten =
      let found : find_wallet_by_id credited.id (save_wallet debited ws) ≡ some debited =
        rw (find-save_wallet, first.id, second.id, is_same_refl) in
      grind (
        int_laws,
        total-save_wallet k credited debited (save_wallet debited ws) found,
        total_moved k debited old ws (pos 0 -ℤ (a +ℤ f)) first (taken ∙ minus _ _) there,
        held-Rebalanced k old credited a second given,
        held-Rebalanced k old debited (pos 0 -ℤ (a +ℤ f)) first (taken ∙ minus _ _),
      )

  treasury_after :
      find_wallet_by_id treasury.id (save_wallet credited (save_wallet debited ws)) ≡ some treasury
  treasury_after =
      rw (find-save_wallet, second.id, apart, find-save_wallet, first.id, apart) treasury_there

  minted :
      total k (save_wallet treasury' (save_wallet credited (save_wallet debited ws)))
      ≡ total k ws +ℤ in_code k old.currency.code a +ℤ in_code k treasury.currency.code f
  minted =
      total_moved k treasury' treasury _ f third earned treasury_after
      ∙ ap (λ t. t +ℤ in_code k treasury.currency.code f) overwritten

no_zero : (t f : ℤ) → t +ℤ pos 0 +ℤ f ≡ t +ℤ f
no_zero t f = omega int_laws

-- A remittance that succeeds from an account other than the treasury to the same account in one
-- currency, in tables where no two wallets have one id, raises the sum of all balances in that
-- currency by its amount and its fee, and leaves the sum in every other currency.
pub execute_self_mints :
    (F : Floats) (E : Environment) (P : Ports F.Float) (input : SendRemittanceInput)
    (w w' : World F.Float) (r : Remittance F.Float) (k : String)
    → HasUniqueIds w.wallets
    → input.sender_account_id ≢ treasury_account_id
    → input.recipient_account_id ≡ input.sender_account_id
    → Currency.from input.destination_currency ≡ Currency.from input.source_currency
    → execute F E P input w ≡ (ok r, w')
    → total k w'.wallets
      ≡ total k w.wallets
        +ℤ in_code k r.source_amount.currency.code r.source_amount.amount_minor_units
        +ℤ in_code k r.source_amount.currency.code r.fee.amount_minor_units
unfolding committed saved_wallets Currency.equals
execute_self_mints F E P input w w' r k unique sender self currency h =
    let ran = execute-Ran F E P input w w' r h in
    let d = ran.deal in
    let s = ran.settlement in
    let dest = prepare_destination F E P input w d ran.prepared in
    let dc = dest.0 in
    let known = facts F E P input w d ran.prepared unique dc dest.1 in
    let drawn = prepare-IsDrawn F E P input w d ran.prepared unique dc dest.1 in
    let given = prepare_input F E P input w d ran.prepared in
    let settled = settle-IsSettled d s ran.settled in
    let drained =
      debit-total d.source_wallet d.updated_source_wallet d.amount d.fee known.debited in
    let one_currency : dc ≡ d.amount.currency = cc (dest.1, currency, given.2) in
    let same : d.is_same_currency ≡ true = ground (arith, known.same) in
    let one_wallet : d.destination_wallet ≡ d.source_wallet =
      cc (known.destination_found, known.source_found, given.0, given.1) in
    let apart =
      id_differs d.sender_account_id treasury_account_id d.amount.currency d.amount.currency
        w.wallets _ _ unique known.source_found known.treasury_source_found
        (accounts_differ _ _ _ (rw given.0 sender)) in
    let code = (find_sound _ _ w.wallets _ known.source_found).1 in
    let treasury_code = (find_sound _ _ w.wallets _ known.treasury_source_found).1 in
    let goal =
      minted k d.source_wallet d.updated_source_wallet s.updated_destination_wallet
        d.treasury_source_wallet s.updated_treasury_source_wallet w.wallets
        d.amount.amount_minor_units d.fee.amount_minor_units drained.0
        (subst (λ (x : Wallet). Rebalanced x s.updated_destination_wallet) one_wallet
          settled.destination)
        settled.treasury drained.1
        ((simp same at settled.destination_balance)
          ∙ ap (λ (x : Wallet). x.balance.amount_minor_units +ℤ d.amount.amount_minor_units)
              one_wallet)
        ((simp same at settled.treasury_balance) ∙ no_zero _ _) apart
        (find_own_id _ _ w.wallets _ unique known.source_found)
        (find_own_id _ _ w.wallets _ unique known.treasury_source_found) in
    rw (ran.after, ran.result) (simp same (rw (code, treasury_code) at goal))
