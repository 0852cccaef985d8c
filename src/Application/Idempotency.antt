-- ===== src/Application/Idempotency.antt =====
-- Idempotent execution: src/application/shared/idempotency/idempotent-decorator.ts over the port
-- of src/application/repositories/idempotency-repository.ts.
pub mod Replay
pub mod InMemory
pub mod Redis
pub mod Postgres
pub mod Race
use money_across_borders.Base.{
  String, Bool, true, false, ◌&&◌, Option, none, some, ◌≡◌, is_same, if◌then◌else◌,
}
use money_across_borders.Domain.Errors.{DomainError, Result, ok, err, idempotency_key_in_flight}

-- What is kept under a key: nothing, a claim, or the response of a completed request.
pub data Slot (O : Type 0) : Type 0 where
  free : Slot O
  in_flight : Slot O
  completed : O → Slot O

module _ {O : Type 0} where
  abbrev pub is_free : Slot O → Bool
  is_free free = true
  is_free in_flight = false
  is_free (completed o) = false

  abbrev pub response_of : Slot O → Option O
  response_of free = none
  response_of in_flight = none
  response_of (completed o) = some o

  abbrev pub released : Slot O → Slot O
  released free = free
  released in_flight = free
  released (completed o) = completed o

-- The operations of the port on a store of type S, with what the store keeps under each key. A
-- save goes over a connection and may throw.
pub record IdempotencyRepository (S O : Type 0) : Type 0 where
  pub view : S → String → Slot O
  pub claim : String → S → Bool × S
  pub find_by_key : String → S → Option O
  pub save : String → O → S → Result (Unit {0}) × S
  pub release : String → S → S

-- What the port's comments promise of each operation, for every key.
pub record IsRepository {S O : Type 0} (R : IdempotencyRepository S O) : Type 0 where
  pub claimed : (k : String) (s : S) → (R.claim k s).0 ≡ is_free (R.view s k)
  pub view-claim :
      (k j : String) (s : S)
      → R.view (R.claim k s).1 j
        ≡ (if is_same k j && is_free (R.view s k) then in_flight else R.view s j)
  pub found : (k : String) (s : S) → R.find_by_key k s ≡ response_of (R.view s k)
  pub view-save :
      (k j : String) (o : O) (s : S)
      → (R.save k o s).0 ≡ ok tt
      → R.view (R.save k o s).1 j ≡ (if is_same k j then completed o else R.view s j)
  pub view-release :
      (k j : String) (s : S)
      → R.view (R.release k s) j ≡ (if is_same k j then released (R.view s j) else R.view s j)

-- A save that throws has written nothing. A store that applies a save and then loses the answer does
-- not do this.
abbrev pub FailsWhole : {S O : Type 0} → IdempotencyRepository S O → Type 0
FailsWhole {S} {O} R =
    (k j : String) (o : O) (s : S) (e : DomainError)
    → (R.save k o s).0 ≡ err e
    → R.view (R.save k o s).1 j ≡ R.view s j

module _ {S O I W : Type 0} (R : IdempotencyRepository S O) (use_case : I → W → Result O × W) where
  -- The `catch` of `execute`: release the claim and throw on.
  unfoldable pub give_up : String → DomainError → S → W → Result O × S × W
  give_up key e s w = (err e, R.release key s, w)

  -- The `try` of `execute`, under a claim that this call holds.
  unfoldable pub run_claimed : String → I → S → W → Result O × S × W
  unfolding give_up
  run_claimed key input s w =
      let (r, w') = use_case input w in
      elim r [
        | err e ↦ give_up key e s w'
        | ok result ↦
            let (saved, s') = R.save key result s in
            elim saved [ ok _ ↦ (ok result, s', w') | err e ↦ give_up key e s' w' ]
      ]

  -- IdempotentDecorator.execute. A response is an object, which passes the test `if (existing)`.
  unfoldable pub execute : String → I → S → W → Result O × S × W
  unfolding run_claimed
  execute key input s w =
      let (claimed, s') = R.claim key s in
      if claimed then run_claimed key input s' w else elim (R.find_by_key key s') [
        | some existing ↦ (ok existing, s', w)
        | none ↦ (err (idempotency_key_in_flight key), s', w)
      ]
