-- ===== src/Tests/Remittance.antt =====
-- SendRemittanceUseCase at the sample.
use money_across_borders.Base.{
  if◌then◌else◌, none, ℕ, ◌==◌, ◌⊎◌, String_discrete, ℤ, pos, ◌+ℤ◌, ◌-ℤ◌, List, [], ◌∷◌, ◌≡◌, ◌≢◌,
  refl, ◌++◌, All, some, ne_of_is_same, arith,
}
use money_across_borders.Domain.Errors.{DomainError, ok, err, invalid, insufficient_funds}
use money_across_borders.Domain.Numbers.{integer}
use money_across_borders.Domain.Money.{from_minor_units}
use money_across_borders.Domain.Currency.{from}
use money_across_borders.Domain.Exchange.{convert}
use money_across_borders.Domain.Wallet.{credit, debit}
use money_across_borders.Domain.Ledger.{assert_balanced_per_currency}
use money_across_borders.Domain.Statuses.{completed}
use money_across_borders.Domain.Entities.{Remittance, LedgerEntry}
use money_across_borders.Store.Laws.{total, balance_of, HasUniqueIds}
use money_across_borders.Store.Repositories.{
  find_wallet_by_id, find_by_account_id_and_currency, find_remittance_by_id,
}
use money_across_borders.Store.{
  Environment, World, OutboxEventRecord, kafka, run_in_transaction, account_id_from,
}
use money_across_borders.Application.SendRemittance.{
  SendRemittanceInput, prepare, settle, get_treasury_wallet, convert_at_rate, treasury_account_id,
}
use money_across_borders.Application.SendRemittance.Execute.{
  execute, do_execute, commit, completed_payload,
}
use money_across_borders.Application.SendRemittance.Correct.{HasDistinctParties, execute_reconciled}
use money_across_borders.Application.SendRemittance.Balances.{ledger_balance}
use money_across_borders.Application.SendRemittance.Totals.{execute_conserves}
use money_across_borders.Application.SendRemittance.Solvent.{IsSolvent, execute-IsSolvent}
use money_across_borders.Application.SendRemittance.Atomic.{SameTables, execute_atomic}
use money_across_borders.Application.SendRemittance.SelfTransfer.{execute_self_mints}
use money_across_borders.Application.SendRemittance.Recorded.{IsOf, execute_recorded}
use money_across_borders.Infra.Pricing.{calculate, calculate_nonneg}
use money_across_borders.Infra.Compliance.{check}
use money_across_borders.Infra.FxRates.{get_rate, rate_in}
use money_across_borders.Tests.Samples.{
  fixed_point, environment, ports, world, usd, brl, remittance_input, self_input,
}

after_balances :
    let after = (execute fixed_point environment ports remittance_input world).1.wallets in
    (balance_of "w-ana-usd" after ≡ pos 39950)
    × (balance_of "w-bia-brl" after ≡ pos 52100)
    × (balance_of "w-treasury-usd" after ≡ pos 1010050)
    × (balance_of "w-treasury-brl" after ≡ pos 948000)
unfolding execute do_execute prepare commit settle run_in_transaction from
    find_by_account_id_and_currency from_minor_units check calculate get_treasury_wallet
    convert_at_rate get_rate rate_in convert credit debit account_id_from
    assert_balanced_per_currency balance_of find_wallet_by_id String_discrete ◌+ℤ◌ ◌-ℤ◌
after_balances = (refl, refl, refl, refl)

-- What the sample call returns, and the world it leaves.
abbrev pub sent : Remittance ℤ
sent = record {
  id = "id-";
  sender_account_id = "ana";
  recipient_account_id = "bia";
  source_wallet_id = "w-ana-usd";
  destination_wallet_id = "w-bia-brl";
  source_amount = record { amount_minor_units = pos 10000; currency = usd };
  fee = record { amount_minor_units = pos 50; currency = usd };
  converted_amount = record { amount_minor_units = pos 52000; currency = brl };
  exchange_rate = pos 22333829939;
  status = completed;
  created_at = 1001;
}

abbrev pub after : World ℤ
after = (execute fixed_point environment ports remittance_input world).1

pub delivered : execute fixed_point environment ports remittance_input world ≡ (ok sent, after)
unfolding execute do_execute prepare commit settle run_in_transaction from
    find_by_account_id_and_currency from_minor_units check calculate get_treasury_wallet
    convert_at_rate get_rate rate_in convert credit debit account_id_from
    assert_balanced_per_currency String_discrete ◌+ℤ◌ ◌-ℤ◌
delivered = refl

pub world-HasUniqueIds : HasUniqueIds world.wallets
unfolding find_wallet_by_id String_discrete
world-HasUniqueIds = (refl, (refl, (refl, (refl, (refl, tt)))))

input-HasDistinctParties : HasDistinctParties remittance_input
unfolding String_discrete
input-HasDistinctParties = record {
  sender = ne_of_is_same "ana" treasury_account_id refl;
  recipient = ne_of_is_same "bia" treasury_account_id refl;
  parties = λ e. absurd (ne_of_is_same "ana" "bia" refl e);
}

execute_conserves_example : total "USD" after.wallets ≡ total "USD" world.wallets
execute_conserves_example =
    execute_conserves fixed_point environment ports remittance_input world after sent "USD"
      world-HasUniqueIds input-HasDistinctParties delivered

world-IsSolvent : IsSolvent world.wallets
world-IsSolvent = (omega arith, (omega arith, (omega arith, (omega arith, (omega arith, tt)))))

execute-IsSolvent_example : IsSolvent after.wallets
execute-IsSolvent_example =
    execute-IsSolvent fixed_point environment ports remittance_input world after sent
      (calculate_nonneg fixed_point) world-IsSolvent delivered

-- Ana asks to send more than she holds.
abbrev pub large_input : SendRemittanceInput
large_input = record remittance_input { amount_minor_units = integer (pos 60000) }

abbrev pub after_thrown : World ℤ
after_thrown = (execute fixed_point environment ports large_input world).1

pub thrown :
    execute fixed_point environment ports large_input world
    ≡ (err (insufficient_funds "w-ana-usd"), after_thrown)
unfolding execute do_execute prepare commit settle run_in_transaction from
    find_by_account_id_and_currency from_minor_units check calculate get_treasury_wallet
    convert_at_rate get_rate rate_in convert credit debit account_id_from
    assert_balanced_per_currency balance_of find_wallet_by_id String_discrete ◌+ℤ◌ ◌-ℤ◌
thrown = refl

-- The database refuses to save the remittance, after the entries and the wallets.
abbrev lost : DomainError
lost = invalid "Connection terminated"

abbrev refusing : Environment
refusing = record environment { save_fails = λ n. if n == 5 then some lost else none }

abbrev after_lost : World ℤ
after_lost = (execute fixed_point refusing ports remittance_input world).1

refused : execute fixed_point refusing ports remittance_input world ≡ (err lost, after_lost)
unfolding execute do_execute prepare commit settle run_in_transaction from
    find_by_account_id_and_currency from_minor_units check calculate get_treasury_wallet
    convert_at_rate get_rate rate_in convert credit debit account_id_from
    assert_balanced_per_currency String_discrete ◌+ℤ◌ ◌-ℤ◌
refused = refl

execute_atomic_example :
    SameTables world after_lost
    × (SameTables world (do_execute fixed_point refusing ports remittance_input world).1
        ⊎ ((n : ℕ) × (refusing.save_fails n ≡ some lost)))
execute_atomic_example =
    execute_atomic fixed_point refusing ports remittance_input world after_lost lost refused

-- Ana sends herself 100 dollars, for half a dollar.
abbrev self_sent : Remittance ℤ
self_sent = record sent {
  recipient_account_id = "ana";
  destination_wallet_id = "w-ana-usd";
  converted_amount = record { amount_minor_units = pos 10000; currency = usd };
  exchange_rate = pos 4294967296;
}

abbrev after_self : World ℤ
after_self = (execute fixed_point environment ports self_input world).1

self_delivered : execute fixed_point environment ports self_input world ≡ (ok self_sent, after_self)
unfolding execute do_execute prepare commit settle run_in_transaction from
    find_by_account_id_and_currency from_minor_units check calculate get_treasury_wallet
    convert_at_rate get_rate rate_in convert credit debit account_id_from
    assert_balanced_per_currency String_discrete ◌+ℤ◌ ◌-ℤ◌
self_delivered = refl

self_currency : from self_input.destination_currency ≡ from self_input.source_currency
unfolding from String_discrete
self_currency = refl

self_sender : self_input.sender_account_id ≢ treasury_account_id
unfolding String_discrete
self_sender = ne_of_is_same "ana" treasury_account_id refl

execute_self_mints_example :
    total "USD" after_self.wallets ≡ total "USD" world.wallets +ℤ pos 10000 +ℤ pos 50
unfolding String_discrete
execute_self_mints_example =
    execute_self_mints fixed_point environment ports self_input world after_self self_sent "USD"
      world-HasUniqueIds self_sender refl self_currency self_delivered

execute_reconciled_example :
    balance_of "w-bia-brl" after.wallets +ℤ ledger_balance "w-bia-brl" world.ledger
    ≡ balance_of "w-bia-brl" world.wallets +ℤ ledger_balance "w-bia-brl" after.ledger
execute_reconciled_example =
    execute_reconciled fixed_point environment ports remittance_input world after sent "w-bia-brl"
      world-HasUniqueIds input-HasDistinctParties delivered

execute_recorded_example :
    (find_remittance_by_id "id-" after.remittances ≡ some sent)
    × ((event : OutboxEventRecord ℤ) × (after.outbox ≡ world.outbox ++ event ∷ [])
        × (event.topic ≡ "remittance.completed")
        × (event.payload ≡ completed_payload environment sent)
        × (event.broker ≡ kafka))
    × ((entries : List LedgerEntry) × (after.ledger ≡ world.ledger ++ entries)
        × All (IsOf sent) entries)
execute_recorded_example =
    execute_recorded fixed_point environment ports remittance_input world after sent delivered
