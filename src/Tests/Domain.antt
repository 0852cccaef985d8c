-- ===== src/Tests/Domain.antt =====
-- The domain and the adapters at concrete values.
use money_across_borders.Base.{
  ℕ, String, String_discrete, ℤ, pos, ◌+ℤ◌, true, List, [], ◌∷◌, ◌≡◌, ◌≢◌, ◌⊎◌, refl, arith,
}
use money_across_borders.Domain.Errors.{ok, err, unbalanced_ledger}
use money_across_borders.Domain.Currency.{from}
use money_across_borders.Domain.Money.{Money}
use money_across_borders.Domain.Exchange.{ExchangeRate}
use money_across_borders.Domain.Statuses
use money_across_borders.Domain.Ledger.{LedgerLegDraft, assert_balanced_per_currency}
use money_across_borders.Domain.Ledger.Balance.{net, assert_balanced_per_currency_verdict}
use money_across_borders.Domain.Wallet.{Wallet, credit, debit}
use money_across_borders.Domain.Wallet.Laws.{debit-credit}
use money_across_borders.Application.SendRemittance.{
  Deal, Settlement, settle, leg, same_currency_legs,
}
use money_across_borders.Application.SendRemittance.Settled.{settle_passes}
use money_across_borders.Infra.FxRates.{get_rate, get_rate_total}
use money_across_borders.Tests.Samples.{fixed_point, usd, brl, wallet}

abbrev dollars : ℕ → Money
dollars n = record { amount_minor_units = pos n; currency = usd }

abbrev ana : Wallet
ana = wallet "w-ana" "ana" usd 50000

richer : credit ana (dollars 100) ≡ ok (wallet "w-ana" "ana" usd 50100)
unfolding credit String_discrete ◌+ℤ◌
richer = refl

debit-credit_example : debit (wallet "w-ana" "ana" usd 50100) (dollars 100) ≡ ok ana
debit-credit_example =
    debit-credit ana (wallet "w-ana" "ana" usd 50100) (dollars 100) refl (omega arith) richer

-- A posting with one side missing.
abbrev one_sided : List LedgerLegDraft
one_sided = leg ana Statuses.debit (dollars 100) "principal" ∷ []

assert_balanced_per_currency_verdict_example :
    ((assert_balanced_per_currency one_sided ≡ ok tt) × ((k : String) → net k one_sided ≡ pos 0))
    ⊎ ((k : String) × (assert_balanced_per_currency one_sided
          ≡ err (unbalanced_ledger k (net k one_sided)))
        × (net k one_sided ≢ pos 0))
assert_balanced_per_currency_verdict_example = assert_balanced_per_currency_verdict one_sided

abbrev deal : Deal ℤ
deal = record {
  sender_account_id = "ana";
  recipient_account_id = "bia";
  source_wallet = ana;
  destination_wallet = wallet "w-bia" "bia" usd 0;
  treasury_source_wallet = wallet "w-treasury" "treasury" usd 1000;
  treasury_destination_wallet = wallet "w-treasury" "treasury" usd 1000;
  amount = dollars 10000;
  fee = dollars 50;
  converted_amount = dollars 10000;
  exchange_rate_value = pos 1000000;
  is_same_currency = true;
  updated_source_wallet = wallet "w-ana" "ana" usd 39950;
}

abbrev settlement : Settlement
settlement = record {
  legs =
      same_currency_legs deal.source_wallet deal.destination_wallet deal.treasury_source_wallet
        (dollars 10000) (dollars 50);
  updated_treasury_source_wallet = wallet "w-treasury" "treasury" usd 1050;
  updated_destination_wallet = wallet "w-bia" "bia" usd 10000;
  updated_treasury_destination_wallet = wallet "w-treasury" "treasury" usd 1050;
}

settled : settle deal ≡ ok settlement
unfolding settle credit String_discrete ◌+ℤ◌
settled = refl

settle_passes_example : assert_balanced_per_currency settlement.legs ≡ ok tt
settle_passes_example = settle_passes deal settlement settled

from_usd : from "usd" ≡ ok usd
unfolding from String_discrete
from_usd = refl

from_brl : from "BRL" ≡ ok brl
unfolding from String_discrete
from_brl = refl

get_rate_total_example :
    (r : ExchangeRate ℤ) × (get_rate fixed_point 7 usd brl ≡ ok r)
    × (r.base_currency ≡ usd)
    × (r.quote_currency ≡ brl)
get_rate_total_example = get_rate_total fixed_point 7 "usd" "BRL" usd brl from_usd from_brl
