-- ===== src/Store/Outbox.antt =====
-- OutboxRepository.add as src/infra/persistence/in-memory/in-memory-outbox-repository.ts makes it.
use money_across_borders.Base.{String}
use money_across_borders.Store.Tables.{Environment, Payload, OutboxEventRecord, OutboxBroker}
use money_across_borders.Store.Actions.{Action, ◌>>=◌, saving, generate_id, now}
use money_across_borders.Store.Repositories.{add_event}

module _ (E : Environment) {Float : Type 0} where
  -- A new id, the current date, at the end.
  unfoldable pub outbox_add : String → Payload Float → OutboxBroker → Action Float (Unit {0})
  unfolding add_event saving
  outbox_add topic payload broker = do
    id ← generate_id E
    at ← now E
    let event : OutboxEventRecord Float = record {
      id = id;
      topic = topic;
      payload = payload;
      broker = broker;
      created_at = at;
    }
    saving E 6 (λ w. record w { outbox = add_event event w.outbox })
