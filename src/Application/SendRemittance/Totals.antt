-- ===== src/Application/SendRemittance/Totals.antt =====
-- The money of each currency, over all wallets, is what it was.
use money_across_borders.Base.{
  String, ℤ, pos, ◌+ℤ◌, ◌-ℤ◌, true, false, some, List, ◌≡◌, ap, ◌∙◌, is_same, if◌then◌else◌, arith,
  int_laws, Bool-cases, inl, inr,
}
use money_across_borders.Domain.Errors.{ok}
use money_across_borders.Domain.Numbers.{Floats}
use money_across_borders.Domain.Currency.{Currency}
use money_across_borders.Domain.Currency
use money_across_borders.Domain.Entities.{Remittance}
use money_across_borders.Domain.Wallet.{Wallet}
use money_across_borders.Domain.Wallet.Laws.{Rebalanced}
use money_across_borders.Store.{World, Environment}
use money_across_borders.Store.Laws.{
  HasUniqueIds, find-save_wallet, find_own_id, find_sound, held, total, total-save_wallet,
}
use money_across_borders.Store.Repositories.{save_wallet, find_wallet_by_id}
use money_across_borders.Application.SendRemittance.{SendRemittanceInput, Ports, Deal, Settlement}
use money_across_borders.Application.SendRemittance.Execute.{execute}
use money_across_borders.Application.SendRemittance.Prepared.{IsPrepared, prepare_destination}
use money_across_borders.Application.SendRemittance.Committed.{committed, saved_wallets}
use money_across_borders.Application.SendRemittance.Reconciled.{
  IsDrawn, IsSeparate, IsSettled, settle-IsSettled, debit-total,
}
use money_across_borders.Application.SendRemittance.Correct.{
  HasDistinctParties, execute-Ran, facts, prepare-IsDrawn, prepare-IsSeparate,
}

-- A sum of money, in a currency code.
abbrev pub in_code : String → String → ℤ → ℤ
in_code k code n = if is_same code k then n else pos 0

pub held-Rebalanced :
    (k : String) (w w' : Wallet) (n : ℤ)
    → Rebalanced w w'
    → w'.balance.amount_minor_units ≡ w.balance.amount_minor_units +ℤ n
    → held k w' ≡ held k w +ℤ in_code k w.currency.code n
unfolding held
held-Rebalanced k w w' n b h = grind int_laws

-- A save of a wallet that is in the table, after which another wallet is still there.
module _ (k : String) (a old : Wallet) (ws : List Wallet) (n : ℤ) (b : Rebalanced old a)
    (moved : a.balance.amount_minor_units ≡ old.balance.amount_minor_units +ℤ n)
    (there : find_wallet_by_id old.id ws ≡ some old) where
  pub total_moved : total k (save_wallet a ws) ≡ total k ws +ℤ in_code k old.currency.code n
  total_moved =
      grind
        (int_laws, total-save_wallet k a old ws (rw b.id there), held-Rebalanced k old a n b moved)

  still_there :
      (x : Wallet)
      → is_same old.id x.id ≡ false
      → find_wallet_by_id x.id ws ≡ some x
      → find_wallet_by_id x.id (save_wallet a ws) ≡ some x
  still_there x ne found = rw (find-save_wallet x.id a ws, b.id, ne) found

pub minus : (a b : ℤ) → a -ℤ b ≡ a +ℤ (pos 0 -ℤ b)
minus a b = omega int_laws

plus_twice : (a b c : ℤ) → a +ℤ b +ℤ c ≡ a +ℤ (b +ℤ c)
plus_twice a b c = omega int_laws

-- What is taken in a code is given in it.
same_sum :
    (k c : String) (t a f : ℤ)
    → t +ℤ in_code k c (pos 0 -ℤ (a +ℤ f)) +ℤ in_code k c a +ℤ in_code k c (pos 0 +ℤ f) ≡ t
same_sum k c t a f = grind int_laws

cross_sum :
    (k c d : String) (t a f v : ℤ)
    → t
        +ℤ in_code k c (pos 0 -ℤ (a +ℤ f))
        +ℤ in_code k d v
        +ℤ in_code k c (a +ℤ f)
        +ℤ in_code k d (pos 0 -ℤ v)
      ≡ t
cross_sum k c d t a f v = grind int_laws

module _ (F : Floats) (P : Ports F.Float) (w : World F.Float) (dc : Currency) (d : Deal F.Float)
    (s : Settlement) (unique : HasUniqueIds w.wallets) (facts : IsPrepared F P w dc d)
    (drawn : IsDrawn d w.wallets) (separate : IsSeparate d) (settled : IsSettled d s) (k : String)
    (source : Rebalanced d.source_wallet d.updated_source_wallet) where
  source_there : find_wallet_by_id d.source_wallet.id w.wallets ≡ some d.source_wallet
  source_there = find_own_id _ _ w.wallets _ unique facts.source_found

  destination_there :
      find_wallet_by_id d.destination_wallet.id w.wallets ≡ some d.destination_wallet
  destination_there = find_own_id _ _ w.wallets _ unique facts.destination_found

  treasury_there :
      find_wallet_by_id d.treasury_source_wallet.id w.wallets ≡ some d.treasury_source_wallet
  treasury_there = find_own_id _ _ w.wallets _ unique facts.treasury_source_found

  source_moved :
      d.updated_source_wallet.balance.amount_minor_units
      ≡ d.source_wallet.balance.amount_minor_units
        +ℤ (pos 0 -ℤ (d.amount.amount_minor_units +ℤ d.fee.amount_minor_units))
  source_moved = drawn.debited ∙ minus _ _

  one : List Wallet
  one = save_wallet d.updated_source_wallet w.wallets

  two : List Wallet
  unfolding one
  two = save_wallet s.updated_destination_wallet one

  destination_still : find_wallet_by_id d.destination_wallet.id one ≡ some d.destination_wallet
  unfolding one
  destination_still =
      still_there k d.updated_source_wallet d.source_wallet w.wallets _ source source_moved
        source_there d.destination_wallet separate.source_destination destination_there

  treasury_still : find_wallet_by_id d.treasury_source_wallet.id two ≡ some d.treasury_source_wallet
  unfolding two
  treasury_still =
      still_there k s.updated_destination_wallet d.destination_wallet one _ settled.destination
        settled.destination_balance destination_still d.treasury_source_wallet
        separate.destination_treasury
        (still_there k d.updated_source_wallet d.source_wallet w.wallets _ source source_moved
          source_there d.treasury_source_wallet separate.source_treasury treasury_there)

  three : List Wallet
  unfolding two
  three = save_wallet s.updated_treasury_source_wallet two

  total-two :
      total k two
      ≡ total k w.wallets
        +ℤ in_code k d.source_wallet.currency.code
            (pos 0 -ℤ (d.amount.amount_minor_units +ℤ d.fee.amount_minor_units))
        +ℤ in_code k d.destination_wallet.currency.code
            (if d.is_same_currency then d.amount else d.converted_amount).amount_minor_units
  unfolding two one
  total-two =
      total_moved k s.updated_destination_wallet d.destination_wallet one _ settled.destination
        settled.destination_balance destination_still
      ∙ ap
          (λ t.
            t
            +ℤ in_code k d.destination_wallet.currency.code
                (if d.is_same_currency then d.amount else d.converted_amount).amount_minor_units)
          (total_moved k d.updated_source_wallet d.source_wallet w.wallets _ source source_moved
            source_there)

  total-three :
      total k three
      ≡ total k two
        +ℤ in_code k d.treasury_source_wallet.currency.code (
            (if d.is_same_currency then pos 0 else d.amount.amount_minor_units)
            +ℤ d.fee.amount_minor_units)
  unfolding three
  total-three =
      total_moved k s.updated_treasury_source_wallet d.treasury_source_wallet two _ settled.treasury
        (settled.treasury_balance ∙ plus_twice _ _ _) treasury_still

  source_code : d.source_wallet.currency.code ≡ d.amount.currency.code
  source_code = (find_sound _ _ w.wallets _ facts.source_found).1

  treasury_code : d.treasury_source_wallet.currency.code ≡ d.amount.currency.code
  treasury_code = (find_sound _ _ w.wallets _ facts.treasury_source_found).1

  destination_code : d.destination_wallet.currency.code ≡ dc.code
  destination_code = (find_sound _ _ w.wallets _ facts.destination_found).1

  saved_same : d.is_same_currency ≡ true → saved_wallets d s w.wallets ≡ three
  unfolding saved_wallets three two one
  saved_same same = ground arith

  saved_other :
      d.is_same_currency ≡ false
      → saved_wallets d s w.wallets ≡ save_wallet s.updated_treasury_destination_wallet three
  unfolding saved_wallets three two one
  saved_other other = ground arith

  same_total : d.is_same_currency ≡ true → total k (saved_wallets d s w.wallets) ≡ total k w.wallets
  unfolding Currency.equals
  same_total same =
      let codes : dc.code ≡ d.amount.currency.code = ground (arith, facts.same) in
      simp
        (
          saved_same same,
          total-three,
          total-two,
          same,
          source_code,
          treasury_code,
          destination_code,
          codes,
        )
        (same_sum k d.amount.currency.code (total k w.wallets) d.amount.amount_minor_units
          d.fee.amount_minor_units)

  other_still :
      d.is_same_currency ≡ false
      → find_wallet_by_id d.treasury_destination_wallet.id three
        ≡ some d.treasury_destination_wallet
  unfolding three two one
  other_still other =
      let there = find_own_id _ _ w.wallets _ unique (facts.treasury_destination_found other) in
      let first =
        still_there k d.updated_source_wallet d.source_wallet w.wallets _ source source_moved
          source_there d.treasury_destination_wallet (separate.source_other other) there in
      let second =
        still_there k s.updated_destination_wallet d.destination_wallet one _ settled.destination
          settled.destination_balance destination_still d.treasury_destination_wallet
          (separate.destination_other other) first in
      still_there k s.updated_treasury_source_wallet d.treasury_source_wallet two _ settled.treasury
        (settled.treasury_balance ∙ plus_twice _ _ _) treasury_still d.treasury_destination_wallet
        (separate.treasury_other other) second

  cross_total :
      d.is_same_currency ≡ false → total k (saved_wallets d s w.wallets) ≡ total k w.wallets
  cross_total other =
      let other_code = (find_sound _ _ w.wallets _ (facts.treasury_destination_found other)).1 in
      let moved =
        total_moved k s.updated_treasury_destination_wallet d.treasury_destination_wallet three _
          (settled.treasury_destination other)
          (settled.treasury_destination_balance other ∙ minus _ _) (other_still other) in
      simp
        (
          saved_other other,
          moved,
          total-three,
          total-two,
          other,
          source_code,
          treasury_code,
          destination_code,
          other_code,
        )
        (cross_sum k d.amount.currency.code dc.code (total k w.wallets) d.amount.amount_minor_units
          d.fee.amount_minor_units d.converted_amount.amount_minor_units)

-- A remittance that succeeds, between parties that are not the treasury and not one account in
-- one currency, in tables where no two wallets have one id, leaves the sum of all balances in
-- every currency code, the treasury's included, what it was.
pub execute_conserves :
    (F : Floats) (E : Environment) (P : Ports F.Float) (input : SendRemittanceInput)
    (w w' : World F.Float) (r : Remittance F.Float) (k : String)
    → HasUniqueIds w.wallets
    → HasDistinctParties input
    → execute F E P input w ≡ (ok r, w')
    → total k w'.wallets ≡ total k w.wallets
unfolding committed
execute_conserves F E P input w w' r k unique parties h =
    let ran = execute-Ran F E P input w w' r h in
    let d = ran.deal in
    let s = ran.settlement in
    let dc = prepare_destination F E P input w d ran.prepared in
    let known = facts F E P input w d ran.prepared unique dc.0 dc.1 in
    let drawn = prepare-IsDrawn F E P input w d ran.prepared unique dc.0 dc.1 in
    let separate = prepare-IsSeparate F E P input w d ran.prepared unique dc.0 dc.1 parties in
    let settled = settle-IsSettled d s ran.settled in
    let source =
      (debit-total d.source_wallet d.updated_source_wallet d.amount d.fee known.debited).0 in
    rw ran.after (elim (Bool-cases d.is_same_currency) [
      | inl same ↦ same_total F P w dc.0 d s unique known drawn separate settled k source same
      | inr other ↦ cross_total F P w dc.0 d s unique known drawn separate settled k source other
    ])
