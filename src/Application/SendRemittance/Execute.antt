-- ===== src/Application/SendRemittance/Execute.antt =====
-- `doExecute` and `execute` of SendRemittanceUseCase, composed from what is prepared and settled.
use money_across_borders.Base.{ℕ, String, if◌then◌else◌}
use money_across_borders.Domain.Numbers.{Floats}
use money_across_borders.Domain.Wallet.{Wallet}
use money_across_borders.Domain.Entities.{Remittance}
use money_across_borders.Domain.Statuses.{completed, remittance_status_description}
use money_across_borders.Store.{
  Environment, Action, ◌>>=◌, ◌>>◌, pure, lift, reads, saving, generate_id, now, run_in_transaction,
  Payload, remittance_completed, kafka, outbox_add,
}
use money_across_borders.Store.Repositories.{save_wallet, save_remittance}
use money_across_borders.Application.LedgerService.{post_balanced_entries}
use money_across_borders.Application.SendRemittance.{
  SendRemittanceInput, Ports, Deal, Settlement, settle, prepare,
}

module _ {Float : Type 0} where
  abbrev pub put_wallet : Environment → ℕ → Wallet → Action Float (Unit {0})
  put_wallet E n wallet = saving E n λ w. record w { wallets = save_wallet wallet w.wallets }

  -- The four saves, of which the last is made only for a conversion.
  unfoldable pub save_wallets : Environment → Deal Float → Settlement → Action Float (Unit {0})
  unfolding save_wallet saving
  save_wallets E d s = do
    put_wallet E 1 d.updated_source_wallet
    put_wallet E 2 s.updated_destination_wallet
    put_wallet E 3 s.updated_treasury_source_wallet
    (if d.is_same_currency then pure tt else put_wallet E 4 s.updated_treasury_destination_wallet)

  abbrev pub remittance_of : Deal Float → String → ℕ → Remittance Float
  remittance_of d id at = record {
    id = id;
    sender_account_id = d.sender_account_id;
    recipient_account_id = d.recipient_account_id;
    source_wallet_id = d.source_wallet.id;
    destination_wallet_id = d.destination_wallet.id;
    source_amount = d.amount;
    fee = d.fee;
    converted_amount = d.converted_amount;
    exchange_rate = d.exchange_rate_value;
    status = completed;
    created_at = at;
  }

module _ (E : Environment) {Float : Type 0} where
  unfoldable pub completed_payload : Remittance Float → Payload Float
  unfolding remittance_status_description
  completed_payload r = remittance_completed (record {
    remittance_id = r.id;
    sender_account_id = r.sender_account_id;
    recipient_account_id = r.recipient_account_id;
    status = remittance_status_description r.status;
    source_currency = r.source_amount.currency.code;
    source_amount_minor_units = r.source_amount.amount_minor_units;
    fee_minor_units = r.fee.amount_minor_units;
    destination_currency = r.converted_amount.currency.code;
    converted_amount_minor_units = r.converted_amount.amount_minor_units;
    exchange_rate = r.exchange_rate;
    created_at = E.to_iso_string r.created_at;
  })

  -- Everything from the id of the remittance on: the posting, the saves and the event.
  unfoldable pub commit : Deal Float → Action Float (Remittance Float)
  unfolding saving save_wallets outbox_add completed_payload post_balanced_entries save_remittance
  commit d = do
    id ← generate_id E
    s ← lift (settle d)
    post_balanced_entries E s.legs id
    save_wallets E d s
    at ← now E
    let remittance = remittance_of d id at
    saving E 5 (λ w. record w { remittances = save_remittance remittance w.remittances })
    outbox_add E "remittance.completed" (completed_payload remittance) kafka
    pure remittance

module _ (F : Floats) (E : Environment) (P : Ports F.Float) where
  open F use {Float}

  unfoldable pub do_execute : SendRemittanceInput → Action Float (Remittance Float)
  do_execute input = do d ← reads (prepare F E P input); commit E d

  -- The remittance that `SendRemittanceOutput.from` prints.
  unfoldable pub execute : SendRemittanceInput → Action Float (Remittance Float)
  execute input = run_in_transaction (do_execute input)
