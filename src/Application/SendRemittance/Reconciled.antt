-- ===== src/Application/SendRemittance/Reconciled.antt =====
-- A posting explains every balance: after a remittance between separate wallets, each wallet has
-- moved by what the new entries credit it with, less what they debit.
use money_across_borders.Base.{
  String, ℤ, pos, ◌+ℤ◌, ◌-ℤ◌, Bool, true, false, ◌&&◌, ◌||◌, List, ◌≡◌, refl, is_same,
  if◌then◌else◌, arith, int_laws, Bool-cases, inl, inr,
}
use money_across_borders.Domain.Errors.{ok, ◌>>=◌}
use money_across_borders.Domain.Money.{Money}
use money_across_borders.Domain.Money
use money_across_borders.Domain.Wallet.{Wallet}
use money_across_borders.Domain.Wallet
use money_across_borders.Domain.Wallet.Laws.{Rebalanced}
use money_across_borders.Domain.Statuses.{is_debit}
use money_across_borders.Store.Laws.{balance_of, balance_of-save_wallet}
use money_across_borders.Application.SendRemittance.{Deal, Settlement, settle}
use money_across_borders.Application.SendRemittance.Settled.{legs_of}
use money_across_borders.Application.SendRemittance.Committed.{saved_wallets}
use money_across_borders.Application.SendRemittance.Balances.{legs_balance, effect}

-- The sum that is taken from the sender's wallet.
pub debit-total :
    (w w' : Wallet) (a f : Money)
    → (Money.add a f >>= λ total. Wallet.debit w total) ≡ ok w'
    → Rebalanced w w'
      × (w'.balance.amount_minor_units
          ≡ w.balance.amount_minor_units -ℤ (a.amount_minor_units +ℤ f.amount_minor_units))
unfolding Money.add Wallet.debit
debit-total w w' a f h = ground arith

-- The wallets of a settlement, by their balances.
pub record IsSettled {Float : Type 0} (d : Deal Float) (s : Settlement) : Type 0 where
  pub treasury : Rebalanced d.treasury_source_wallet s.updated_treasury_source_wallet
  pub destination : Rebalanced d.destination_wallet s.updated_destination_wallet
  pub treasury_destination :
      d.is_same_currency ≡ false
      → Rebalanced d.treasury_destination_wallet s.updated_treasury_destination_wallet
  pub destination_balance :
      s.updated_destination_wallet.balance.amount_minor_units
      ≡ d.destination_wallet.balance.amount_minor_units
        +ℤ (if d.is_same_currency then d.amount else d.converted_amount).amount_minor_units
  pub treasury_balance :
      s.updated_treasury_source_wallet.balance.amount_minor_units
      ≡ d.treasury_source_wallet.balance.amount_minor_units
        +ℤ (if d.is_same_currency then pos 0 else d.amount.amount_minor_units)
        +ℤ d.fee.amount_minor_units
  pub treasury_destination_balance :
      d.is_same_currency ≡ false
      → s.updated_treasury_destination_wallet.balance.amount_minor_units
        ≡ d.treasury_destination_wallet.balance.amount_minor_units
          -ℤ d.converted_amount.amount_minor_units

+ℤ-zero : (n : ℤ) → n +ℤ pos 0 ≡ n
+ℤ-zero n = omega int_laws

pub settle-IsSettled :
    {Float : Type 0} (d : Deal Float) (s : Settlement) → settle d ≡ ok s → IsSettled d s
unfolding settle Wallet.credit Wallet.debit
settle-IsSettled d s h = ground (arith, +ℤ-zero d.treasury_source_wallet.balance.amount_minor_units)

-- The wallets of the deal as the table has them, with the sender's debited.
pub record IsDrawn {Float : Type 0} (d : Deal Float) (ws : List Wallet) : Type 0 where
  pub source : balance_of d.source_wallet.id ws ≡ d.source_wallet.balance.amount_minor_units
  pub destination :
      balance_of d.destination_wallet.id ws ≡ d.destination_wallet.balance.amount_minor_units
  pub treasury :
      balance_of d.treasury_source_wallet.id ws
      ≡ d.treasury_source_wallet.balance.amount_minor_units
  pub treasury_destination :
      d.is_same_currency ≡ false
      → balance_of d.treasury_destination_wallet.id ws
        ≡ d.treasury_destination_wallet.balance.amount_minor_units
  pub debited_id : d.updated_source_wallet.id ≡ d.source_wallet.id
  pub debited :
      d.updated_source_wallet.balance.amount_minor_units
      ≡ d.source_wallet.balance.amount_minor_units
        -ℤ (d.amount.amount_minor_units +ℤ d.fee.amount_minor_units)

-- The wallets of the deal are different wallets.
pub record IsSeparate {Float : Type 0} (d : Deal Float) : Type 0 where
  pub source_destination : is_same d.source_wallet.id d.destination_wallet.id ≡ false
  pub source_treasury : is_same d.source_wallet.id d.treasury_source_wallet.id ≡ false
  pub destination_treasury : is_same d.destination_wallet.id d.treasury_source_wallet.id ≡ false
  pub source_other :
      d.is_same_currency ≡ false
      → is_same d.source_wallet.id d.treasury_destination_wallet.id ≡ false
  pub destination_other :
      d.is_same_currency ≡ false
      → is_same d.destination_wallet.id d.treasury_destination_wallet.id ≡ false
  pub treasury_other :
      d.is_same_currency ≡ false
      → is_same d.treasury_source_wallet.id d.treasury_destination_wallet.id ≡ false

-- One wallet of the table, which is at most one of the three of a remittance in one currency.
same_chain :
    (bs bd bt : Bool) (old source destination treasury a f source' destination' treasury' : ℤ)
    → source' ≡ source -ℤ (a +ℤ f)
    → destination' ≡ destination +ℤ a
    → treasury' ≡ treasury +ℤ pos 0 +ℤ f
    → (bs ≡ true → old ≡ source)
    → (bd ≡ true → old ≡ destination)
    → (bt ≡ true → old ≡ treasury)
    → bs && bd ≡ false
    → bs && bt ≡ false
    → bd && bt ≡ false
    → (if bt then treasury' else if bd then destination' else if bs then source' else old)
      ≡ old
        +ℤ ((if bs then pos 0 -ℤ a else pos 0)
            +ℤ ((if bd then a else pos 0)
                +ℤ ((if bs then pos 0 -ℤ f else pos 0) +ℤ ((if bt then f else pos 0) +ℤ pos 0))))
same_chain false false false old s d t a f s' d' t' es ed et os od ot n m k = omega int_laws
same_chain true false false old s d t a f s' d' t' es ed et os od ot n m k =
    rw (os refl, es) (omega int_laws)
same_chain false true false old s d t a f s' d' t' es ed et os od ot n m k =
    rw (od refl, ed) (omega int_laws)
same_chain false false true old s d t a f s' d' t' es ed et os od ot n m k =
    rw (ot refl, et) (omega int_laws)
same_chain true true _ old s d t a f s' d' t' es ed et os od ot n m k = cc
same_chain true false true old s d t a f s' d' t' es ed et os od ot n m k = cc
same_chain false true true old s d t a f s' d' t' es ed et os od ot n m k = cc

-- The same for a conversion, with a fourth wallet.
cross_chain :
    (bs bd bt bu : Bool)
    (old source destination treasury other a f c source' destination' treasury' other' : ℤ)
    → source' ≡ source -ℤ (a +ℤ f)
    → destination' ≡ destination +ℤ c
    → treasury' ≡ treasury +ℤ a +ℤ f
    → other' ≡ other -ℤ c
    → (bs ≡ true → old ≡ source)
    → (bd ≡ true → old ≡ destination)
    → (bt ≡ true → old ≡ treasury)
    → (bu ≡ true → old ≡ other)
    → (bs && bd) || (bs && bt) || (bs && bu) || (bd && bt) || (bd && bu) || (bt && bu) ≡ false
    → (if bu
        then other'
        else if bt
        then treasury'
        else if bd
        then destination'
        else if bs
        then source'
        else old)
      ≡ old
        +ℤ ((if bs then pos 0 -ℤ a else pos 0)
            +ℤ ((if bt then a else pos 0)
                +ℤ ((if bs then pos 0 -ℤ f else pos 0)
                    +ℤ ((if bt then f else pos 0)
                        +ℤ ((if bu then pos 0 -ℤ c else pos 0)
                            +ℤ ((if bd then c else pos 0) +ℤ pos 0))))))
cross_chain false false false false old s d t u a f c s' d' t' u' es ed et eu os od ot ou n =
    omega int_laws
cross_chain true false false false old s d t u a f c s' d' t' u' es ed et eu os od ot ou n =
    rw (os refl, es) (omega int_laws)
cross_chain false true false false old s d t u a f c s' d' t' u' es ed et eu os od ot ou n =
    rw (od refl, ed) (omega int_laws)
cross_chain false false true false old s d t u a f c s' d' t' u' es ed et eu os od ot ou n =
    rw (ot refl, et) (omega int_laws)
cross_chain false false false true old s d t u a f c s' d' t' u' es ed et eu os od ot ou n =
    rw (ou refl, eu) (omega int_laws)
cross_chain _ _ _ _ old s d t u a f c s' d' t' u' es ed et eu os od ot ou n = cc

-- Two tests for one id, of two ids.
exclusive : (x y id : String) → is_same x y ≡ false → is_same x id && is_same y id ≡ false
exclusive x y id h = ground arith

balance_at :
    (x id : String) (ws : List Wallet) {n : ℤ}
    → balance_of x ws ≡ n
    → is_same x id ≡ true
    → balance_of id ws ≡ n
balance_at x id ws h e = ground arith

module _ {Float : Type 0} (d : Deal Float) (s : Settlement) (ws : List Wallet)
    (drawn : IsDrawn d ws) (separate : IsSeparate d) (settled : IsSettled d s) (id : String) where
  same_balances :
      d.is_same_currency ≡ true
      → balance_of id (saved_wallets d s ws) ≡ balance_of id ws +ℤ legs_balance id (legs_of d)
  unfolding saved_wallets legs_balance effect is_debit
  same_balances same = rw same (
      simp (balance_of-save_wallet, drawn.debited_id, settled.treasury.id, settled.destination.id)
        (same_chain (is_same d.source_wallet.id id) (is_same d.destination_wallet.id id)
          (is_same d.treasury_source_wallet.id id) (balance_of id ws) _ _ _ _ _ _ _ _ drawn.debited
          (rw same at settled.destination_balance) (rw same at settled.treasury_balance)
          (balance_at _ id ws drawn.source) (balance_at _ id ws drawn.destination)
          (balance_at _ id ws drawn.treasury) (exclusive _ _ id separate.source_destination)
          (exclusive _ _ id separate.source_treasury)
          (exclusive _ _ id separate.destination_treasury)))

  cross_balances :
      d.is_same_currency ≡ false
      → balance_of id (saved_wallets d s ws) ≡ balance_of id ws +ℤ legs_balance id (legs_of d)
  unfolding saved_wallets legs_balance effect is_debit
  cross_balances other = rw other (
      simp
        (
          balance_of-save_wallet,
          drawn.debited_id,
          settled.treasury.id,
          settled.destination.id,
          (settled.treasury_destination other).id,
        )
        (cross_chain (is_same d.source_wallet.id id) (is_same d.destination_wallet.id id)
          (is_same d.treasury_source_wallet.id id) (is_same d.treasury_destination_wallet.id id)
          (balance_of id ws) _ _ _ _ _ _ _ _ _ _ _ drawn.debited
          (rw other at settled.destination_balance) (rw other at settled.treasury_balance)
          (settled.treasury_destination_balance other) (balance_at _ id ws drawn.source)
          (balance_at _ id ws drawn.destination) (balance_at _ id ws drawn.treasury)
          (balance_at _ id ws (drawn.treasury_destination other))
          (simp (
            exclusive _ _ id separate.source_destination,
            exclusive _ _ id separate.source_treasury,
            exclusive _ _ id separate.destination_treasury,
            exclusive _ _ id (separate.source_other other),
            exclusive _ _ id (separate.destination_other other),
            exclusive _ _ id (separate.treasury_other other),
          ))))

  -- Each wallet moves by the legs that are posted for it.
  pub saved_wallets-balance :
      balance_of id (saved_wallets d s ws) ≡ balance_of id ws +ℤ legs_balance id (legs_of d)
  saved_wallets-balance = elim (Bool-cases d.is_same_currency) [
    | inl same ↦ same_balances same
    | inr other ↦ cross_balances other
  ]
