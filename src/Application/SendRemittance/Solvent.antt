-- ===== src/Application/SendRemittance/Solvent.antt =====
-- No wallet falls below zero.
use money_across_borders.Base.{
  String, ℤ, pos, ◌+ℤ◌, ◌≤ℤ◌, false, some, List, ◌≡◌, refl, All, find-All, upsert-All, arith,
  int_laws, Bool-cases, inl, inr,
}
use money_across_borders.Domain.Errors.{ok, ◌>>=◌}
use money_across_borders.Domain.Numbers.{Floats}
use money_across_borders.Domain.Currency.{Currency}
use money_across_borders.Domain.Money.{Money}
use money_across_borders.Domain.Money
use money_across_borders.Domain.Exchange.{convert}
use money_across_borders.Domain.Entities.{Remittance}
use money_across_borders.Domain.Wallet.{Wallet}
use money_across_borders.Domain.Wallet
use money_across_borders.Store.{World, Environment}
use money_across_borders.Store.Repositories.{save_wallet, find_by_account_id_and_currency}
use money_across_borders.Application.SendRemittance.{
  SendRemittanceInput, Ports, Deal, Settlement, settle, convert_at_rate,
}
use money_across_borders.Application.SendRemittance.Execute.{execute}
use money_across_borders.Application.SendRemittance.Prepared.{
  prepare_destination, prepare-IsPrepared,
}
use money_across_borders.Application.SendRemittance.Committed.{committed, saved_wallets}
use money_across_borders.Application.SendRemittance.Reconciled.{IsSettled, settle-IsSettled}
use money_across_borders.Application.SendRemittance.Correct.{execute-Ran}

abbrev pub IsFunded : Wallet → Type 0
IsFunded w = pos 0 ≤ℤ w.balance.amount_minor_units

-- Every balance is zero or more.
abbrev pub IsSolvent : List Wallet → Type 0
IsSolvent = All IsFunded

save_wallet-IsSolvent :
    (a : Wallet) (ws : List Wallet) → IsFunded a → IsSolvent ws → IsSolvent (save_wallet a ws)
unfolding save_wallet
save_wallet-IsSolvent a ws h hs = upsert-All IsFunded _ a ws h hs

find-IsFunded :
    (account_id : String) (c : Currency) (ws : List Wallet) (x : Wallet)
    → IsSolvent ws
    → find_by_account_id_and_currency account_id c ws ≡ some x
    → IsFunded x
unfolding find_by_account_id_and_currency
find-IsFunded account_id c ws x h e = find-All IsFunded _ ws x h e

credit-IsFunded :
    (w w' : Wallet) (m : Money)
    → IsFunded w
    → pos 0 ≤ℤ m.amount_minor_units
    → Wallet.credit w m ≡ ok w'
    → IsFunded w'
unfolding Wallet.credit
credit-IsFunded w w' m h p e = grind int_laws

debit-IsFunded : (w w' : Wallet) (m : Money) → Wallet.debit w m ≡ ok w' → IsFunded w'
unfolding Wallet.debit
debit-IsFunded w w' m e = grind int_laws

debit-total-IsFunded :
    (w w' : Wallet) (a f : Money)
    → (Money.add a f >>= λ total. Wallet.debit w total) ≡ ok w'
    → IsFunded w'
unfolding Money.add
debit-total-IsFunded w w' a f h = ground (
  arith,
  debit-IsFunded w w' (record {
    amount_minor_units = a.amount_minor_units +ℤ f.amount_minor_units;
    currency = a.currency;
  }),
)

-- A conversion is checked by `Money.fromMinorUnits`.
convert_nonneg :
    (F : Floats) (P : Ports F.Float) (a b : Currency) (m n : Money)
    → convert_at_rate F P a b m ≡ ok n
    → pos 0 ≤ℤ n.amount_minor_units
unfolding convert_at_rate convert
convert_nonneg F P a b m n h = grind int_laws

settle_other-IsFunded :
    {Float : Type 0} (d : Deal Float) (s : Settlement)
    → settle d ≡ ok s
    → d.is_same_currency ≡ false
    → IsFunded s.updated_treasury_destination_wallet
unfolding settle
settle_other-IsFunded d s h other = ground (
  arith,
  debit-IsFunded d.treasury_destination_wallet s.updated_treasury_destination_wallet
      d.converted_amount,
)

plus_nonneg : (a b : ℤ) {c : ℤ} → c ≡ a +ℤ b → pos 0 ≤ℤ a → pos 0 ≤ℤ b → pos 0 ≤ℤ c
plus_nonneg a b e h k = rw e (omega int_laws)

module _ {Float : Type 0} (d : Deal Float) (s : Settlement) (settled : IsSettled d s)
    (amount : pos 0 ≤ℤ d.amount.amount_minor_units) (fee : pos 0 ≤ℤ d.fee.amount_minor_units)
    (converted : d.is_same_currency ≡ false → pos 0 ≤ℤ d.converted_amount.amount_minor_units) where
  destination-IsFunded : IsFunded d.destination_wallet → IsFunded s.updated_destination_wallet
  destination-IsFunded h = plus_nonneg _ _ settled.destination_balance h (ground arith)

  treasury-IsFunded : IsFunded d.treasury_source_wallet → IsFunded s.updated_treasury_source_wallet
  treasury-IsFunded h =
      plus_nonneg _ _ settled.treasury_balance
        (plus_nonneg _ _ refl h (elim (Bool-cases d.is_same_currency) [
          | inl same ↦ simp same (omega arith)
          | inr other ↦ simp other amount
        ]))
        fee

-- Where the fee of an amount of zero or more is zero or more and no balance is negative, a
-- remittance that succeeds leaves no negative balance, whoever sends to whom.
pub execute-IsSolvent :
    (F : Floats) (E : Environment) (P : Ports F.Float) (input : SendRemittanceInput)
    (w w' : World F.Float) (r : Remittance F.Float)
    → ((m : Money) → pos 0 ≤ℤ m.amount_minor_units → pos 0 ≤ℤ (P.calculate m).amount_minor_units)
    → IsSolvent w.wallets
    → execute F E P input w ≡ (ok r, w')
    → IsSolvent w'.wallets
unfolding committed saved_wallets
execute-IsSolvent F E P input w w' r fees solvent h =
    let ran = execute-Ran F E P input w w' r h in
    let d = ran.deal in
    let s = ran.settlement in
    let dc = prepare_destination F E P input w d ran.prepared in
    let facts = prepare-IsPrepared F E P input w d dc.0 ran.prepared dc.1 in
    let settled = settle-IsSettled d s ran.settled in
    let fee : pos 0 ≤ℤ d.fee.amount_minor_units =
      rw facts.fee_charged (fees d.amount facts.amount_nonneg) in
    let converted : d.is_same_currency ≡ false → pos 0 ≤ℤ d.converted_amount.amount_minor_units =
      λ other. convert_nonneg F P _ _ _ _ (facts.other_amount other) in
    let three =
      save_wallet-IsSolvent s.updated_treasury_source_wallet _
        (treasury-IsFunded d s settled facts.amount_nonneg fee converted
          (find-IsFunded _ _ w.wallets _ solvent facts.treasury_source_found))
        (save_wallet-IsSolvent s.updated_destination_wallet _
          (destination-IsFunded d s settled facts.amount_nonneg fee converted
            (find-IsFunded _ _ w.wallets _ solvent facts.destination_found))
          (save_wallet-IsSolvent d.updated_source_wallet w.wallets
            (debit-total-IsFunded d.source_wallet d.updated_source_wallet d.amount d.fee
              facts.debited)
            solvent)) in
    rw ran.after (elim (Bool-cases d.is_same_currency) [
      | inl same ↦ simp same three
      | inr other ↦ simp other (
          save_wallet-IsSolvent s.updated_treasury_destination_wallet _
            (settle_other-IsFunded d s ran.settled other) three)
    ])
