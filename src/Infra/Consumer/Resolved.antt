-- ===== src/Infra/Consumer/Resolved.antt =====
-- What becomes of a delivery.
use money_across_borders.Base.{ℕ, String, Bool, some, [], ◌∷◌, ◌≡◌, is_same_refl, arith}
use money_across_borders.Domain.Errors.{DomainError, Result, err}
use money_across_borders.Application.Idempotency.{IdempotencyRepository, IsRepository, free}
use money_across_borders.Infra.Consumer.{Message, ack, dedupe_key, handle_failure, handle_message}

module _ {V S W : Type 0} (R : IdempotencyRepository S Bool)
    (on_processed : V → W → Result (Unit {0}) × W) (max_retries : ℕ) (delay : ℕ → ℕ)
    (laws : IsRepository R) where
  -- Over a repository that keeps the promises of the port: a delivery under a free key whose
  -- processing throws does to the channel what the failure handler does, leaves what the
  -- processing left, and leaves the key free.
  pub handle_message_failed :
      (m : Message V) (key : String) (s : S) (w w' : W) (e : DomainError)
      → dedupe_key m.message_id ≡ some key
      → R.view s key ≡ free
      → on_processed m.event w ≡ (err e, w')
      → let (sent, s', u) = handle_message R on_processed max_retries delay m s w in
        (sent ≡ handle_failure max_retries delay m) × (u ≡ w') × (R.view s' key ≡ free)
  unfolding handle_message
  handle_message_failed m key s w w' e k h run = ground (
    arith,
    laws.claimed key s,
    laws.view-claim key key s,
    laws.view-release key key (R.claim key s).1,
    is_same_refl key,
  )

  -- Over a repository that keeps the promises of the port: a delivery whose key is held or
  -- completed is acknowledged, and nothing is processed, sent or changed under any key.
  pub handle_message_duplicate :
      (m : Message V) (key j : String) (s : S) (w : W)
      → dedupe_key m.message_id ≡ some key
      → ¬ (R.view s key ≡ free)
      → let (sent, s', u) = handle_message R on_processed max_retries delay m s w in
        (sent ≡ ack m ∷ []) × (u ≡ w) × (R.view s' j ≡ R.view s j)
  unfolding handle_message
  handle_message_duplicate m key j s w k h =
      ground (arith, laws.claimed key s, laws.view-claim key j s)
