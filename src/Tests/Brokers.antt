-- ===== src/Tests/Brokers.antt =====
-- The outbox relay and the consumer, with a broker that takes every event.
use money_across_borders.Base.{
  ℕ, suc, String, String_discrete, ℤ, Bool, true, none, some, List, [], ◌∷◌, ◌++◌, ◌≡◌, refl, arith,
}
use money_across_borders.Domain.Errors.{Result, ok, err, DomainError, invalid}
use money_across_borders.Store.{World, rabbitmq, account_created}
use money_across_borders.Store.Repositories.{contains, find_unpublished}
use money_across_borders.Application.Idempotency.{IdempotencyRepository, free}
use money_across_borders.Application.Idempotency.InMemory.{
  Storage, repository, in_memory-IsRepository,
}
use money_across_borders.Infra.Relay.{Broker, batch_size, relay_once}
use money_across_borders.Infra.Relay.Delivery.{IsRemembered, noted, notes, relay_once_marks_taken}
use money_across_borders.Infra.Relay.Drained.{IsUp, relay_once_drains}
use money_across_borders.Infra.Consumer.{
  Message, ack, absent, count, dedupe_key, get_retry_count, handle_message,
}
use money_across_borders.Infra.Consumer.Resolved.{handle_message_duplicate}
use money_across_borders.Infra.Consumer.Attempts.{deliver, dead_lettered}
use money_across_borders.Tests.Samples.{empty_world}

-- One signup that is not published yet.
abbrev queued : World ℤ
queued = record empty_world {
  outbox =
      record {
        id = "e-1";
        topic = "account.created";
        payload = account_created "a-1" "u-1" "ana@example.com" "2024-01-01T00:00:00.000Z";
        broker = rabbitmq;
        created_at = 0;
      }
      ∷ [];
}

-- A client that takes everything.
abbrev broker : Broker ℤ (List String)
broker = record { connect = λ z. (ok tt, z); send = λ e z. (ok tt, z ++ e.id ∷ []) }

broker-IsUp : IsUp broker
broker-IsUp = record { connects = λ z. refl; sends = λ e z. refl }

nothing_published : IsRemembered {Float = ℤ} (notes {Z = List String}) (queued, ([], []))
nothing_published id h = h

relay_once_marks_taken_example :
    let (w', (z', ids')) = relay_once (noted broker) rabbitmq (queued, ([], [])) in
    (relay_once broker rabbitmq (queued, []) ≡ (w', z'))
    × ((id : String) → contains id w'.published ≡ true → contains id ids' ≡ true)
relay_once_marks_taken_example =
    relay_once_marks_taken broker rabbitmq queued [] [] nothing_published

relay_once_drains_example :
    find_unpublished batch_size rabbitmq (relay_once broker rabbitmq (queued, [])).0 ≡ []
relay_once_drains_example = relay_once_drains broker broker-IsUp rabbitmq queued [] (omega arith)

-- Processing that fails every time, and counts its runs.
abbrev smtp_down : DomainError
smtp_down = invalid "connect ECONNREFUSED"

abbrev processing : String → ℕ → Result (Unit {0}) × ℕ
processing event runs = (err smtp_down, suc runs)

abbrev keys : IdempotencyRepository (Storage Bool) Bool
keys = repository

abbrev message : Message String
message = record { event = "ana"; message_id = some "m-1"; retry_count = absent }

keyed : dedupe_key message.message_id ≡ some "m-1"
unfolding dedupe_key String_discrete
keyed = refl

abbrev held : Storage Bool
held = ("m-1", record { response = none }) ∷ []

handle_message_duplicate_example :
    let (sent, s', runs) = handle_message keys processing 3 (λ n. n) message held 0 in
    (sent ≡ ack message ∷ []) × (runs ≡ 0) × (keys.view s' "m-1" ≡ keys.view held "m-1")
unfolding String_discrete
handle_message_duplicate_example =
    handle_message_duplicate keys processing 3 (λ n. n) in_memory-IsRepository message "m-1" "m-1"
      held 0 keyed (λ e. cc)

dead_lettered_example :
    (s' : Storage Bool) × (runs : ℕ) × (deliver keys processing 3 (λ n. n) 4 message [] 0
      ≡ some (4, some (record message { retry_count = count 4 }), s', runs))
    × (keys.view s' "m-1" ≡ free)
unfolding get_retry_count
dead_lettered_example =
    dead_lettered keys processing 3 (λ n. n) in_memory-IsRepository 3 message "m-1" [] 0 keyed refl
      (λ u. (smtp_down, refl)) refl
