-- ===== src/Application/Idempotency/Replay.antt =====
-- What the decorator does with a key that is free, held, or completed, over any repository that
-- keeps the port's promises.
use money_across_borders.Base.{String, ◌≡◌, ◌∙◌, is_same_refl, arith}
use money_across_borders.Domain.Errors.{DomainError, Result, ok, err, idempotency_key_in_flight}
use money_across_borders.Application.Idempotency.{
  free, in_flight, completed, IdempotencyRepository, IsRepository, FailsWhole, execute,
}

module _ {S O I W : Type 0} (R : IdempotencyRepository S O) (use_case : I → W → Result O × W)
    (laws : IsRepository R) where
  -- Over a repository that keeps the promises of the port: under a key with a saved response the
  -- decorator returns the response, runs nothing, and leaves what every key has.
  pub execute-completed :
      (key j : String) (input : I) (s : S) (w : W) (o : O)
      → R.view s key ≡ completed o
      → let (r, s', w') = execute R use_case key input s w in
        (r ≡ ok o) × (w' ≡ w) × (R.view s' j ≡ R.view s j)
  unfolding execute
  execute-completed key j input s w o h = ground (
    arith,
    laws.claimed key s,
    laws.view-claim key key s,
    laws.view-claim key j s,
    laws.found key (R.claim key s).1,
  )

  -- Over a repository that keeps the promises of the port: under a key that another request
  -- holds the decorator throws the in-flight error, runs nothing, and leaves what every key has.
  pub execute_in_flight :
      (key j : String) (input : I) (s : S) (w : W)
      → R.view s key ≡ in_flight
      → let (r, s', w') = execute R use_case key input s w in
        (r ≡ err (idempotency_key_in_flight key)) × (w' ≡ w) × (R.view s' j ≡ R.view s j)
  unfolding execute
  execute_in_flight key j input s w h = ground (
    arith,
    laws.claimed key s,
    laws.view-claim key key s,
    laws.view-claim key j s,
    laws.found key (R.claim key s).1,
  )

  -- A free key under which the use case succeeds and its response is saved.
  execute_free_saved :
      (key j : String) (input : I) (s : S) (w w' : W) (o : O)
      → R.view s key ≡ free
      → use_case input w ≡ (ok o, w')
      → (R.save key o (R.claim key s).1).0 ≡ ok tt
      → let (r, s', u) = execute R use_case key input s w in
        (r ≡ ok o) × (u ≡ w') × (R.view s' key ≡ completed o)
  unfolding execute
  execute_free_saved key j input s w w' o h run saved =
      ground
        (arith, laws.claimed key s, laws.view-save key key o (R.claim key s).1, is_same_refl key)

  -- Over a repository that keeps the promises of the port: a request under a free key whose use
  -- case succeeds and whose response is saved returns that response; a later request with the
  -- key, whatever its input, returns the same response and leaves the world that the first one
  -- left.
  pub execute_replays :
      (key : String) (input later : I) (s : S) (w w' : W) (o : O)
      → R.view s key ≡ free
      → use_case input w ≡ (ok o, w')
      → (R.save key o (R.claim key s).1).0 ≡ ok tt
      → let (r, s₁, w₁) = execute R use_case key input s w in
        let (r₂, s₂, w₂) = execute R use_case key later s₁ w₁ in
        (r ≡ ok o) × (w₁ ≡ w') × (r₂ ≡ ok o) × (w₂ ≡ w')
  execute_replays key input later s w w' o h run saved =
      let first = execute_free_saved key key input s w w' o h run saved in
      let s₁ = (execute R use_case key input s w).1 in
      let w₁ = (execute R use_case key input s w).2 in
      let second = execute-completed key key later s₁ w₁ o first.2 in
      (first.0, first.1, second.0, second.1 ∙ first.1)

  -- Over a repository that keeps the promises of the port: where the use case throws under a
  -- free key, the decorator throws the same error, leaves the world that the use case left, and
  -- the key is free again.
  pub execute_failed :
      (key : String) (input : I) (s : S) (w w' : W) (e : DomainError)
      → R.view s key ≡ free
      → use_case input w ≡ (err e, w')
      → let (r, s', u) = execute R use_case key input s w in
        (r ≡ err e) × (u ≡ w') × (R.view s' key ≡ free)
  unfolding execute
  execute_failed key input s w w' e h run = ground (
    arith,
    laws.claimed key s,
    laws.view-claim key key s,
    laws.view-release key key (R.claim key s).1,
    is_same_refl key,
  )

  -- Over a repository that keeps the promises of the port, and where a save that throws has
  -- written nothing: where the use case succeeds under a free key and the save of its response
  -- throws, the decorator throws the error of the save, the effect of the use case stands, the
  -- key is free, and a second request with the key leaves the world that running the use case
  -- once more on that effect leaves.
  pub execute_again_after_failed_save :
      FailsWhole R
      → (key : String) (input : I) (s : S) (w w' : W) (o : O) (e : DomainError)
      → R.view s key ≡ free
      → use_case input w ≡ (ok o, w')
      → (R.save key o (R.claim key s).1).0 ≡ err e
      → let (r, s₁, w₁) = execute R use_case key input s w in
        (r ≡ err e)
        × (w₁ ≡ w')
        × (R.view s₁ key ≡ free)
        × ((execute R use_case key input s₁ w₁).2 ≡ (use_case input w').1)
  unfolding execute
  execute_again_after_failed_save whole key input s w w' o e h run failed =
      let s₁ = R.release key (R.save key o (R.claim key s).1).1 in
      ground (
        arith,
        laws.claimed key s,
        laws.view-claim key key s,
        whole key key o (R.claim key s).1 e failed,
        laws.view-release key key (R.save key o (R.claim key s).1).1,
        laws.claimed key s₁,
        is_same_refl key,
      )
