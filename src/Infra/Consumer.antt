-- ===== src/Infra/Consumer.antt =====
-- The consumer of account.created, src/infra/events/consumers/account-created-consumer.ts, over the
-- queues of src/infra/config/message-broker/rabbitmq-retry-topology.ts.
pub mod Resolved
pub mod Attempts
use money_across_borders.Base.{
  ℕ, suc, ◌+◌, ltb, String, Bool, true, false, Option, none, some, List, [], ◌∷◌, ◌++◌,
  if◌then◌else◌, is_same,
}
use money_across_borders.Domain.Errors.{Result, ok, err}
use money_across_borders.Application.Idempotency.{IdempotencyRepository}

-- The header x-retry-count: absent, a finite number, or any other value.
pub data Header : Type 0 where
  absent : Header
  count : ℕ → Header
  other : Header

unfoldable pub get_retry_count : Header → ℕ
get_retry_count absent = 0
get_retry_count (count n) = n
get_retry_count other = 0

-- A message with its properties, but for those that the consumer only passes on.
pub record Message (V : Type 0) : Type 0 where
  pub event : V
  pub message_id : Option String
  pub retry_count : Header

-- What the consumer does with its channel, in order.
pub data Sent (V : Type 0) : Type 0 where
  ack : Message V → Sent V
  to_retry_queue : Message V → ℕ → Sent V
  to_dlq : Message V → Sent V

-- `!dedupeKey`: undefined, or an empty text.
unfoldable pub dedupe_key : Option String → Option String
dedupe_key none = none
dedupe_key (some key) = if is_same key "" then none else some key

module _ {V : Type 0} (max_retries : ℕ) (delay : ℕ → ℕ) where
  -- `handleFailure`, where `delay` is the rounded backoff of an attempt.
  unfoldable pub handle_failure : Message V → List (Sent V)
  unfolding get_retry_count
  handle_failure message =
      let retry_count = suc (get_retry_count message.retry_count) in
      let copy = record message { retry_count = count retry_count } in
      if ltb max_retries retry_count
      then to_dlq copy ∷ ack message ∷ []
      else to_retry_queue copy (delay retry_count) ∷ ack message ∷ []

module _ {V S W : Type 0} (R : IdempotencyRepository S Bool)
    (on_processed : V → W → Result (Unit {0}) × W) (max_retries : ℕ) (delay : ℕ → ℕ) where
  -- The `catch` of `processAndAck`.
  abbrev recover : Message V → Option String → S → W → List (Sent V) × S × W
  recover message none s w = (handle_failure max_retries delay message, s, w)
  recover message (some key) s w = (handle_failure max_retries delay message, R.release key s, w)

  -- `if (dedupeKey) await save(…)`
  abbrev save_processed : Option String → S → Result (Unit {0}) × S
  save_processed none s = (ok tt, s)
  save_processed (some key) s = R.save key true s

  unfoldable pub process_and_ack : Message V → Option String → S → W → List (Sent V) × S × W
  unfolding handle_failure
  process_and_ack message key s w =
      let (processed, w') = on_processed message.event w in
      let (saved, s') = save_processed key s in
      elim processed [
        | err _ ↦ recover message key s w'
        | ok _ ↦ elim saved [
          | err _ ↦ recover message key s' w'
          | ok _ ↦ (ack message ∷ [], s', w')
        ]
      ]

  unfoldable pub handle_message : Message V → S → W → List (Sent V) × S × W
  unfolding process_and_ack dedupe_key
  handle_message message s w = elim (dedupe_key message.message_id) [
    | none ↦ process_and_ack message none s w
    | some key ↦
        let (claimed, s') = R.claim key s in
        if claimed then process_and_ack message (some key) s' w else elim (R.find_by_key key s') [
          | some already_processed ↦ (ack message ∷ [], s', w)
          | none ↦ (ack message ∷ [], s', w)
        ]
  ]
