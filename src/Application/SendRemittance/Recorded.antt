-- ===== src/Application/SendRemittance/Recorded.antt =====
-- What a remittance leaves in the other tables.
use money_across_borders.Base.{
  ℕ, suc, List, [], ◌∷◌, ◌++◌, some, ◌≡◌, refl, All, find-upsert, is_same_refl, arith,
}
use money_across_borders.Domain.Errors.{ok}
use money_across_borders.Domain.Numbers.{Floats}
use money_across_borders.Domain.Entities.{Remittance, LedgerEntry}
use money_across_borders.Domain.Ledger.{LedgerLegDraft}
use money_across_borders.Store.{World, Environment, OutboxEventRecord, kafka}
use money_across_borders.Store.Repositories.{save_remittance, find_remittance_by_id}
use money_across_borders.Application.SendRemittance.{SendRemittanceInput, Ports}
use money_across_borders.Application.SendRemittance.Execute.{
  execute, completed_payload, remittance_of,
}
use money_across_borders.Application.SendRemittance.Committed.{entries_from, committed}
use money_across_borders.Application.SendRemittance.Correct.{execute-Ran}

find-save_remittance :
    {Float : Type 0} (r : Remittance Float) (rs : List (Remittance Float))
    → find_remittance_by_id r.id (save_remittance r rs) ≡ some r
unfolding find_remittance_by_id save_remittance
find-save_remittance r rs =
    ground (arith, find-upsert (λ (x : Remittance _). x.id) r.id r rs, is_same_refl r.id)

-- Entries of the transaction of a remittance.
abbrev pub IsOf : {Float : Type 0} → Remittance Float → LedgerEntry → Type 0
IsOf r e = e.transaction_id ≡ r.id

entries_from-IsOf :
    (E : Environment) {Float : Type 0} (r : Remittance Float) (at g : ℕ)
    (legs : List LedgerLegDraft)
    → All (IsOf r) (entries_from E r.id at g legs)
unfolding entries_from
entries_from-IsOf E r at g [] = tt
entries_from-IsOf E r at g (l ∷ legs) = (refl, entries_from-IsOf E r at (suc g) legs)

-- A remittance that succeeds is found by its id; the outbox gains exactly one event at its end,
-- for Kafka, with the topic remittance.completed and the remittance as payload; the ledger gains
-- entries at its end, which all name the remittance as their transaction.
pub execute_recorded :
    (F : Floats) (E : Environment) (P : Ports F.Float) (input : SendRemittanceInput)
    (w w' : World F.Float) (r : Remittance F.Float)
    → execute F E P input w ≡ (ok r, w')
    → (find_remittance_by_id r.id w'.remittances ≡ some r)
      × ((event : OutboxEventRecord F.Float) × (w'.outbox ≡ w.outbox ++ event ∷ [])
          × (event.topic ≡ "remittance.completed")
          × (event.payload ≡ completed_payload E r)
          × (event.broker ≡ kafka))
      × ((entries : List LedgerEntry) × (w'.ledger ≡ w.ledger ++ entries) × All (IsOf r) entries)
unfolding committed
execute_recorded F E P input w w' r h =
    let ran = execute-Ran F E P input w w' r h in
    let sent = remittance_of ran.deal (E.uuid_v7 w.generated) (E.clock (suc w.clock_reads)) in
    rw (ran.after, ran.result)
      (
        find-save_remittance sent w.remittances,
        (_, refl, refl, refl, refl),
        (
          _,
          refl,
          entries_from-IsOf E sent (E.clock w.clock_reads) (suc w.generated) ran.settlement.legs,
        ),
      )
