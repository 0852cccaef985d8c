-- ===== src/Domain/Ledger.antt =====
-- The legs of a posting and their check: src/domain/ledger/services/ledger-service.ts.
pub mod Balance
use money_across_borders.Base.{
  String, ℤ, pos, ◌+ℤ◌, ◌-ℤ◌, is_zero, List, [], ◌∷◌, is_same, if◌then◌else◌,
}
use money_across_borders.Domain.Errors.{Result, ok, err, unbalanced_ledger}
use money_across_borders.Domain.Money.{Money}
use money_across_borders.Domain.Statuses.{EntryDirection, is_debit}

pub record LedgerLegDraft : Type 0 where
  pub wallet_id : String
  pub direction : EntryDirection
  pub money : Money
  pub description : String

-- A `Map` from currency codes to nets, in insertion order.
abbrev pub Nets : Type 0
Nets = List (String × ℤ)

-- `nets.get(code) ?? 0`
abbrev pub get_net : String → Nets → ℤ
get_net k [] = pos 0
get_net k ((j, n) ∷ m) = if is_same j k then n else get_net k m

-- `nets.set(code, n)`
abbrev pub set_net : String → ℤ → Nets → Nets
set_net k n [] = (k, n) ∷ []
set_net k n ((j, o) ∷ m) = if is_same j k then (j, n) ∷ m else (j, o) ∷ set_net k n m

-- A debit counts up, any other direction counts down.
unfoldable pub signed : LedgerLegDraft → ℤ
unfolding is_debit
signed leg =
    if is_debit leg.direction
    then leg.money.amount_minor_units
    else pos 0 -ℤ leg.money.amount_minor_units

unfoldable pub add_legs : Nets → List LedgerLegDraft → Nets
unfolding signed
add_legs m [] = m
add_legs m (leg ∷ legs) =
    let code = leg.money.currency.code in
    add_legs (set_net code (get_net code m +ℤ signed leg) m) legs

unfoldable pub refuse_nonzero : Nets → Result (Unit {0})
refuse_nonzero [] = ok tt
refuse_nonzero ((code, net) ∷ m) =
    if is_zero net then refuse_nonzero m else err (unbalanced_ledger code net)

unfoldable pub assert_balanced_per_currency : List LedgerLegDraft → Result (Unit {0})
unfolding add_legs refuse_nonzero
assert_balanced_per_currency legs = refuse_nonzero (add_legs [] legs)
