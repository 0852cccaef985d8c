-- ===== src/Application/SendRemittance/Correct.antt =====
-- What a remittance that succeeds has done, by the rows that it leaves.
use money_across_borders.Base.{
  suc, String, ◌+ℤ◌, Bool, false, ◌&&◌, ◌≡◌, ◌≢◌, sym, ◌∙◌, is_same, inl, inr, arith, int_laws,
}
use money_across_borders.Domain.Errors.{DomainError, ok, err, Result-cases}
use money_across_borders.Domain.Numbers.{Floats}
use money_across_borders.Domain.Currency.{Currency}
use money_across_borders.Domain.Currency
use money_across_borders.Domain.Currency.Laws.{from_code_unique}
use money_across_borders.Domain.Entities.{Remittance}
use money_across_borders.Store.{World, Environment, run_in_transaction}
use money_across_borders.Store.Laws.{HasUniqueIds, balance_of, balance_of_found, id_differs}
use money_across_borders.Application.SendRemittance.{
  SendRemittanceInput, Ports, Deal, Settlement, treasury_account_id, settle, prepare,
}
use money_across_borders.Application.SendRemittance.Execute.{
  remittance_of, commit, do_execute, execute,
}
use money_across_borders.Application.SendRemittance.Prepared.{
  IsPrepared, prepare-IsPrepared, prepare_destination, prepare_input,
}
use money_across_borders.Application.SendRemittance.Settled.{settle-legs, settle_passes}
use money_across_borders.Application.SendRemittance.Committed.{committed, commit-eq}
use money_across_borders.Application.SendRemittance.Balances.{
  ledger_balance, ledger_balance-append, ledger_balance-entries_from,
}
use money_across_borders.Application.SendRemittance.Reconciled.{
  IsDrawn, IsSeparate, debit-total, settle-IsSettled, saved_wallets-balance,
}

pub accounts_differ : (a b : String) (q : Bool) → a ≢ b → is_same a b && q ≡ false
accounts_differ a b q h = ground arith

codes_differ : (p : Bool) (x y : String) → is_same x y ≡ false → p && is_same x y ≡ false
codes_differ p x y h = ground arith

-- The sender, the recipient and the treasury are apart, but a sender may convert to itself.
pub record HasDistinctParties (input : SendRemittanceInput) : Type 0 where
  pub sender : input.sender_account_id ≢ treasury_account_id
  pub recipient : input.recipient_account_id ≢ treasury_account_id
  pub parties :
      input.sender_account_id ≡ input.recipient_account_id
      → Currency.from input.source_currency ≢ Currency.from input.destination_currency

module _ (F : Floats) (E : Environment) (P : Ports F.Float) where
  open F use {Float}

  -- How a successful call ran.
  pub record Ran (input : SendRemittanceInput) (w : World Float) (r : Remittance Float)
      (w' : World Float) : Type 0 where
    pub deal : Deal Float
    pub settlement : Settlement
    pub prepared : prepare F E P input w ≡ ok deal
    pub settled : settle deal ≡ ok settlement
    pub after : w' ≡ committed E deal settlement w
    pub result : r ≡ remittance_of deal (E.uuid_v7 w.generated) (E.clock (suc w.clock_reads))

  -- A commit that cannot settle writes nothing but the counter of ids.
  pub commit_refused :
      (d : Deal Float) (e : DomainError) (w : World Float)
      → settle d ≡ err e
      → commit E d w ≡ (err e, record w { generated = suc w.generated })
  unfolding commit
  commit_refused d e w h = ground arith

  pub do_execute-Ran :
      (input : SendRemittanceInput) (w w' : World Float) (r : Remittance Float)
      → do_execute F E P input w ≡ (ok r, w')
      → Ran input w r w'
  unfolding do_execute
  do_execute-Ran input w w' r h = elim (Result-cases (prepare F E P input w)) [
    | inr (e, refused) ↦ absurd (ground arith)
    | inl (d, prepared) ↦ elim (Result-cases (settle d)) [
      | inr (e, refused) ↦ absurd (ground (arith, commit_refused d e w refused))
      | inl (s, settled) ↦
          let returned : commit E d w ≡ (ok r, w') = ground arith in
          let (result, after) =
            commit-eq E d s w w' r settled (settle_passes d s settled) returned in
          record {
            deal = d;
            settlement = s;
            prepared = prepared;
            settled = settled;
            after = after;
            result = result;
          }
    ]
  ]

  pub execute-Ran :
      (input : SendRemittanceInput) (w w' : World Float) (r : Remittance Float)
      → execute F E P input w ≡ (ok r, w')
      → Ran input w r w'
  unfolding execute run_in_transaction
  execute-Ran input w w' r h = do_execute-Ran input w w' r (ground arith)

  module _ (input : SendRemittanceInput) (w : World Float) (d : Deal Float)
      (prepared : prepare F E P input w ≡ ok d) (unique : HasUniqueIds w.wallets) (dc : Currency)
      (found : Currency.from input.destination_currency ≡ ok dc) where
    pub facts : IsPrepared F P w dc d
    facts = prepare-IsPrepared F E P input w d dc prepared found

    pub prepare-IsDrawn : IsDrawn d w.wallets
    prepare-IsDrawn =
        let total =
          debit-total d.source_wallet d.updated_source_wallet d.amount d.fee facts.debited in
        record {
          source = balance_of_found _ _ w.wallets d.source_wallet unique facts.source_found;
          destination =
              balance_of_found _ _ w.wallets d.destination_wallet unique facts.destination_found;
          treasury =
              balance_of_found _ _ w.wallets d.treasury_source_wallet unique
                facts.treasury_source_found;
          treasury_destination = λ other.
              balance_of_found _ _ w.wallets d.treasury_destination_wallet unique
                (facts.treasury_destination_found other);
          debited_id = total.0.id;
          debited = total.1;
        }

    keys_differ :
        HasDistinctParties input
        → is_same d.sender_account_id d.recipient_account_id
            && is_same d.amount.currency.code dc.code
          ≡ false
    keys_differ parties =
        let given = prepare_input F E P input w d prepared in
        ground (
          arith,
          parties.parties,
          from_code_unique input.source_currency input.destination_currency d.amount.currency dc
              given.2 found,
        )

    pub prepare-IsSeparate : HasDistinctParties input → IsSeparate d
    unfolding Currency.equals
    prepare-IsSeparate parties =
        let given = prepare_input F E P input w d prepared in
        let sc = d.amount.currency in
        let sender : d.sender_account_id ≢ treasury_account_id = rw given.0 parties.sender in
        let recipient : d.recipient_account_id ≢ treasury_account_id =
          rw given.1 parties.recipient in
        record {
          source_destination =
              id_differs d.sender_account_id d.recipient_account_id sc dc w.wallets _ _ unique
                facts.source_found facts.destination_found (keys_differ parties);
          source_treasury =
              id_differs d.sender_account_id treasury_account_id sc sc w.wallets _ _ unique
                facts.source_found facts.treasury_source_found (accounts_differ _ _ _ sender);
          destination_treasury =
              id_differs d.recipient_account_id treasury_account_id dc sc w.wallets _ _ unique
                facts.destination_found facts.treasury_source_found
                (accounts_differ _ _ _ recipient);
          source_other = λ other.
              id_differs d.sender_account_id treasury_account_id sc dc w.wallets _ _ unique
                facts.source_found (facts.treasury_destination_found other)
                (accounts_differ _ _ _ sender);
          destination_other = λ other.
              id_differs d.recipient_account_id treasury_account_id dc dc w.wallets _ _ unique
                facts.destination_found (facts.treasury_destination_found other)
                (accounts_differ _ _ _ recipient);
          treasury_other = λ other.
              id_differs treasury_account_id treasury_account_id sc dc w.wallets _ _ unique
                facts.treasury_source_found (facts.treasury_destination_found other)
                (codes_differ _ _ _ (sym facts.same ∙ other));
        }

  -- A remittance that succeeds, between parties that are not the treasury and not one account in
  -- one currency, in tables where no two wallets have one id, changes the balance of every
  -- wallet by exactly the credits less the debits of the ledger entries it adds for that wallet.
  pub execute_reconciled :
      (input : SendRemittanceInput) (w w' : World Float) (r : Remittance Float) (id : String)
      → HasUniqueIds w.wallets
      → HasDistinctParties input
      → execute F E P input w ≡ (ok r, w')
      → balance_of id w'.wallets +ℤ ledger_balance id w.ledger
        ≡ balance_of id w.wallets +ℤ ledger_balance id w'.ledger
  unfolding committed
  execute_reconciled input w w' r id unique parties h =
      let ran = execute-Ran input w w' r h in
      let d = ran.deal in
      let s = ran.settlement in
      let dc = prepare_destination F E P input w d ran.prepared in
      let drawn = prepare-IsDrawn input w d ran.prepared unique dc.0 dc.1 in
      let separate = prepare-IsSeparate input w d ran.prepared unique dc.0 dc.1 parties in
      let settled = settle-IsSettled d s ran.settled in
      rw
        (
          ran.after,
          saved_wallets-balance d s w.wallets drawn separate settled id,
          ledger_balance-append,
          ledger_balance-entries_from,
          settle-legs d s ran.settled,
        )
        (omega int_laws)
