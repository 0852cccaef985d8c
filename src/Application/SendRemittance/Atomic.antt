-- ===== src/Application/SendRemittance/Atomic.antt =====
-- A remittance that fails.
use money_across_borders.Base.{ℕ, some, ◌⊎◌, ◌≡◌, inl, inr, arith}
use money_across_borders.Domain.Errors.{DomainError, err, Result-cases}
use money_across_borders.Domain.Numbers.{Floats}
use money_across_borders.Store.{World, Environment, run_in_transaction}
use money_across_borders.Application.SendRemittance.{SendRemittanceInput, Ports, settle, prepare}
use money_across_borders.Application.SendRemittance.Execute.{commit, do_execute, execute}
use money_across_borders.Application.SendRemittance.Settled.{settle_passes}
use money_across_borders.Application.SendRemittance.Committed.{commit_failed}
use money_across_borders.Application.SendRemittance.Correct.{commit_refused}

-- Two worlds with the same rows in every table.
pub record SameTables {Float : Type 0} (w w' : World Float) : Type 0 where
  pub users : w'.users ≡ w.users
  pub accounts : w'.accounts ≡ w.accounts
  pub wallets : w'.wallets ≡ w.wallets
  pub ledger : w'.ledger ≡ w.ledger
  pub remittances : w'.remittances ≡ w.remittances
  pub profiles : w'.profiles ≡ w.profiles
  pub dossiers : w'.dossiers ≡ w.dossiers
  pub outbox : w'.outbox ≡ w.outbox
  pub published : w'.published ≡ w.published

-- The tables after `doExecute` has thrown an error.
do_execute_failed :
    (F : Floats) (E : Environment) (P : Ports F.Float) (input : SendRemittanceInput)
    (w w' : World F.Float) (e : DomainError)
    → do_execute F E P input w ≡ (err e, w')
    → SameTables w w' ⊎ ((n : ℕ) × (E.save_fails n ≡ some e))
unfolding do_execute
do_execute_failed F E P input w w' e h = elim (Result-cases (prepare F E P input w)) [
  | inr (e', refused) ↦ inl (ground arith)
  | inl (d, prepared) ↦ elim (Result-cases (settle d)) [
    | inr (e', refused) ↦ inl (ground (arith, commit_refused F E P d e' w refused))
    | inl (s, settled) ↦
        let threw : commit E d w ≡ (err e, w') = ground arith in
        inr (commit_failed E d s w w' e settled (settle_passes d s settled) threw)
  ]
]

-- A remittance that throws has changed no table. Before the transaction rolls back, `doExecute`
-- has changed none either, unless what was thrown is what a save that was refused threw.
pub execute_atomic :
    (F : Floats) (E : Environment) (P : Ports F.Float) (input : SendRemittanceInput)
    (w w' : World F.Float) (e : DomainError)
    → execute F E P input w ≡ (err e, w')
    → SameTables w w'
      × (SameTables w (do_execute F E P input w).1 ⊎ ((n : ℕ) × (E.save_fails n ≡ some e)))
unfolding execute run_in_transaction
execute_atomic F E P input w w' e h = elim (Result-cases (do_execute F E P input w).0) [
  | inl (r, q) ↦ absurd (ground arith)
  | inr (e', q) ↦
      let same : e' ≡ e = ground arith in
      let threw : do_execute F E P input w ≡ (err e, (do_execute F E P input w).1) = cc (q, same) in
      (ground arith, do_execute_failed F E P input w _ e threw)
]
