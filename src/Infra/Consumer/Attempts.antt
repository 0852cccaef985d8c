-- ===== src/Infra/Consumer/Attempts.antt =====
-- A message on its way through the retry queue, which the broker moves back to the work queue when
-- its delay is over.
use money_across_borders.Base.{
  ℕ, zero, suc, ◌+◌, String, Bool, Option, none, some, List, [], ◌∷◌, ◌≡◌, refl, ap, ◌∙◌, arith,
}
use money_across_borders.Domain.Errors.{DomainError, Result, err}
use money_across_borders.Application.Idempotency.{IdempotencyRepository, IsRepository, free}
use money_across_borders.Infra.Consumer.{
  Message, Sent, ack, to_retry_queue, to_dlq, count, get_retry_count, dedupe_key, handle_failure,
  handle_message,
}
use money_across_borders.Infra.Consumer.Resolved.{handle_message_failed}

module _ {V : Type 0} where
  -- The copies that a delivery has sent.
  abbrev parked : List (Sent V) → Option (Message V)
  parked (to_retry_queue copy at ∷ sent) = some copy
  parked _ = none

  abbrev pub dead_letter : List (Sent V) → Option (Message V)
  dead_letter (to_dlq copy ∷ sent) = some copy
  dead_letter _ = none

-- One more delivery than there were after it.
abbrev counted : {A B C : Type 0} → Option (ℕ × A × B × C) → Option (ℕ × A × B × C)
counted none = none
counted (some (n, a, b, c)) = some (suc n, a, b, c)

module _ {V : Type 0} (max_retries : ℕ) (delay : ℕ → ℕ) (m : Message V) where
  failure_last :
      get_retry_count m.retry_count ≡ max_retries
      → handle_failure max_retries delay m
        ≡ to_dlq (record m { retry_count = count (suc max_retries) }) ∷ ack m ∷ []
  unfolding handle_failure
  failure_last h = ground arith

  failure_next :
      (k n : ℕ)
      → get_retry_count m.retry_count ≡ n
      → n + suc k ≡ max_retries
      → handle_failure max_retries delay m
        ≡ to_retry_queue (record m { retry_count = count (suc n) }) (delay (suc n)) ∷ ack m ∷ []
  unfolding handle_failure
  failure_next k n h l = ground arith

module _ {V S W : Type 0} (R : IdempotencyRepository S Bool)
    (on_processed : V → W → Result (Unit {0}) × W) (max_retries : ℕ) (delay : ℕ → ℕ) where
  -- Deliveries of a message until none is sent back: how many, what the dead-letter queue has got,
  -- and what is left behind.
  unfoldable pub deliver : ℕ → Message V → S → W → Option (ℕ × Option (Message V) × S × W)
  deliver zero m s w = none
  deliver (suc fuel) m s w =
      let (sent, s', w') = handle_message R on_processed max_retries delay m s w in
      elim (parked sent) [
        | none ↦ some (1, dead_letter sent, s', w')
        | some copy ↦ counted (deliver fuel copy s' w')
      ]

module _ {V S W : Type 0} (R : IdempotencyRepository S Bool)
    (on_processed : V → W → Result (Unit {0}) × W) (max_retries : ℕ) (delay : ℕ → ℕ)
    (laws : IsRepository R) where
  deliver_last :
      (k : ℕ) (m copy : Message V) (s : S) (w : W)
      → (handle_message R on_processed max_retries delay m s w).0 ≡ to_dlq copy ∷ ack m ∷ []
      → let (_, s', w') = handle_message R on_processed max_retries delay m s w in
        deliver R on_processed max_retries delay (suc k) m s w ≡ some (1, some copy, s', w')
  unfolding deliver
  deliver_last k m copy s w h = ground arith

  deliver_next :
      (k at : ℕ) (m copy : Message V) (s : S) (w : W)
      → (handle_message R on_processed max_retries delay m s w).0
        ≡ to_retry_queue copy at ∷ ack m ∷ []
      → let (_, s', w') = handle_message R on_processed max_retries delay m s w in
        deliver R on_processed max_retries delay (suc k) m s w
        ≡ counted (deliver R on_processed max_retries delay k copy s' w')
  unfolding deliver
  deliver_next k at m copy s w h = ground arith

  -- Over a repository that keeps the promises of the port: a message with a dedupe key that is
  -- free, whose processing throws every time and which has k retries left, is delivered exactly
  -- k + 1 times; then it is in the dead-letter queue with a retry count one above the limit, and
  -- its key is free.
  pub dead_lettered :
      (k : ℕ) (m : Message V) (key : String) (s : S) (w : W)
      → dedupe_key m.message_id ≡ some key
      → R.view s key ≡ free
      → ((u : W) → (e : DomainError) × ((on_processed m.event u).0 ≡ err e))
      → get_retry_count m.retry_count + k ≡ max_retries
      → (s' : S) × (w' : W) × (deliver R on_processed max_retries delay (suc k) m s w
          ≡ some (suc k, some (record m { retry_count = count (suc max_retries) }), s', w'))
        × (R.view s' key ≡ free)
  unfolding get_retry_count
  dead_lettered zero m key s w d h failing limit =
      let (_, s', w') = handle_message R on_processed max_retries delay m s w in
      let (e, threw) = failing w in
      let (sent, _, freed) =
        handle_message_failed R on_processed max_retries delay laws m key s w
          (on_processed m.event w).1 e d h (ground arith) in
      let copy = record m { retry_count = count (suc max_retries) } in
      let last = failure_last max_retries delay m (omega (arith, limit)) in
      (s', w', deliver_last 0 m copy s w (sent ∙ last), freed)
  dead_lettered (suc k) m key s w d h failing limit =
      let (_, s', w') = handle_message R on_processed max_retries delay m s w in
      let (e, threw) = failing w in
      let (sent, _, freed) =
        handle_message_failed R on_processed max_retries delay laws m key s w
          (on_processed m.event w).1 e d h (ground arith) in
      let n = get_retry_count m.retry_count in
      let copy = record m { retry_count = count (suc n) } in
      let parks = failure_next max_retries delay m k n refl limit in
      let step = deliver_next (suc k) (delay (suc n)) m copy s w (sent ∙ parks) in
      let (t, u, rest, free_again) =
        dead_lettered k copy key s' w' d freed failing (omega (arith, limit)) in
      (t, u, step ∙ ap counted rest, free_again)
