-- ===== src/Infra/Relay.antt =====
-- The outbox relays, src/infra/events/consumers/rabbitmq-outbox-relay.ts and
-- kafka-outbox-relay.ts: one tick of the endless loop of each.
pub mod Delivery
pub mod Drained
use money_across_borders.Base.{ℕ, String, List, [], ◌∷◌}
use money_across_borders.Domain.Errors.{Result, ok, err}
use money_across_borders.Store.{World, OutboxEventRecord, OutboxBroker}
use money_across_borders.Store.Repositories.{find_unpublished, mark_published}

abbrev pub batch_size : ℕ
batch_size = 50

-- A broker's client: a connection, and a send, which may throw. Z is the state of the broker.
pub record Broker (Float Z : Type 0) : Type 0 where
  pub connect : Z → Result (Unit {0}) × Z
  pub send : OutboxEventRecord Float → Z → Result (Unit {0}) × Z

module _ {Float Z : Type 0} (B : Broker Float Z) where
  -- The body of the loop: an error is logged, and the event stays unpublished.
  unfoldable pub relay_event : OutboxEventRecord Float → World Float × Z → World Float × Z
  unfolding mark_published
  relay_event event (w, z) =
      let (sent, z') = B.send event z in
      elim sent [ ok _ ↦ (mark_published event.id w, z') | err _ ↦ (w, z') ]

  unfoldable pub relay_all : List (OutboxEventRecord Float) → World Float × Z → World Float × Z
  unfolding relay_event
  relay_all [] s = s
  relay_all (event ∷ events) s = relay_all events (relay_event event s)

  -- `relayOnce`: no connection is made for an empty batch, and a failing one ends the tick.
  unfoldable pub relay_once : OutboxBroker → World Float × Z → World Float × Z
  unfolding find_unpublished relay_all
  relay_once broker (w, z) = elim (find_unpublished batch_size broker w) [
    | [] ↦ (w, z)
    | event ∷ events ↦
        let (connected, z') = B.connect z in
        elim connected [ ok _ ↦ relay_all (event ∷ events) (w, z') | err _ ↦ (w, z') ]
  ]
