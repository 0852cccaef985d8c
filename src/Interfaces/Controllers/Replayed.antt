-- ===== src/Interfaces/Controllers/Replayed.antt =====
-- A request that is sent again.
use money_across_borders.Base.{String, Option, none, some, ◌≡◌, refl, ◌⊎◌, inl, inr}
use money_across_borders.Domain.Errors.{DomainError, Result, ok}
use money_across_borders.Application.Idempotency.{
  IdempotencyRepository, IsRepository, free, execute,
}
use money_across_borders.Application.Idempotency.Replay.{execute_replays}
use money_across_borders.Interfaces.Controllers.{Response, output, respond, idempotency_key, handle}

-- A request that names its key, in the header or, without the header, in the body.
abbrev pub Names : String → Option String → Option String → Type 0
Names key header body = (header ≡ some key) ⊎ ((header ≡ none) × (body ≡ some key))

named :
    (key fresh : String) (header body : Option String)
    → Names key header body
    → idempotency_key header body fresh ≡ key
unfolding idempotency_key
named key fresh header body (inl h) = rw h refl
named key fresh header body (inr (h, b)) = rw (h, b) refl

module _ {S O I W : Type 0} (R : IdempotencyRepository S O) (use_case : I → W → Result O × W)
    (answer : DomainError → Response O) (laws : IsRepository R) where
  -- Under the key that a request names.
  handled :
      (key fresh : String) (header body : Option String) (input : I) (s : S) (w : W)
      → Names key header body
      → handle R use_case answer header body fresh (ok input) s w ≡ (
        respond 201 answer (execute R use_case key input s w).0,
        (execute R use_case key input s w).1,
        (execute R use_case key input s w).2,
      )
  unfolding handle
  handled key fresh header body input s w h = rw (named key fresh header body h) refl

  -- Over a repository that keeps the promises of the port: where a request with a parsed body
  -- and a free key in its header succeeds, whatever key its body has, and its response is saved,
  -- the controller answers 201 with the output, and it answers a later request that names the
  -- key in its header, or in its body without the header, the same, whatever else its body says,
  -- and leaves the world that the first one left.
  pub handle_replays :
      (key : String) (body header₂ body₂ : Option String) (fresh fresh₂ : String) (input later : I)
      (s : S) (w w' : W) (o : O)
      → Names key header₂ body₂
      → R.view s key ≡ free
      → use_case input w ≡ (ok o, w')
      → (R.save key o (R.claim key s).1).0 ≡ ok tt
      → let (r, s₁, w₁) = handle R use_case answer (some key) body fresh (ok input) s w in
        let (r₂, s₂, w₂) = handle R use_case answer header₂ body₂ fresh₂ (ok later) s₁ w₁ in
        (r ≡ record { status_code = 201; result = output o }) × (r₂ ≡ r) × (w₂ ≡ w')
  unfolding respond
  handle_replays key body header₂ body₂ fresh fresh₂ input later s w w' o names h run saved =
      let (first, world, second, left) =
        execute_replays R use_case laws key input later s w w' o h run saved in
      rw (handled key fresh (some key) body input s w (inl refl)) (
        rw (handled key fresh₂ header₂ body₂ later _ _ names)
          (rw (first, second) (refl, refl, left)))
