-- ===== src/Application/Idempotency/InMemory.antt =====
-- InMemoryIdempotencyRepository of src/infra/persistence/in-memory, a `Map` from keys to entries,
-- keeps the port's promises.
use money_across_borders.Base.{
  String, Bool, true, false, ◌&&◌, Option, none, some, List, [], ◌∷◌, ◌≡◌, refl, is_same,
  if◌then◌else◌, arith,
}
use money_across_borders.Domain.Errors.{ok}
use money_across_borders.Application.Idempotency.{
  Slot, free, in_flight, completed, is_free, released, IdempotencyRepository, IsRepository,
  FailsWhole,
}

-- `{ response, hasResponse }`: the response where there is one.
pub record Entry (O : Type 0) : Type 0 where
  pub response : Option O

abbrev pub Storage : Type 0 → Type 0
Storage O = List (String × Entry O)

module _ {O : Type 0} where
  -- `Map.get`
  abbrev get : String → Storage O → Option (Entry O)
  get k [] = none
  get k ((j, e) ∷ m) = if is_same j k then some e else get k m

  -- `Map.set`
  abbrev put : String → Entry O → Storage O → Storage O
  put k e [] = (k, e) ∷ []
  put k e ((j, f) ∷ m) = if is_same j k then (j, e) ∷ m else (j, f) ∷ put k e m

  -- `Map.delete`, which removes the one entry of the key.
  abbrev delete : String → Storage O → Storage O
  delete k [] = []
  delete k ((j, e) ∷ m) = if is_same j k then delete k m else (j, e) ∷ delete k m

  abbrev slot : Option (Entry O) → Slot O
  slot none = free
  slot (some e) = elim e.response [ none ↦ in_flight | some o ↦ completed o ]

  unfoldable pub claim : String → Storage O → Bool × Storage O
  claim key m = elim (get key m) [
    | some e ↦ (false, m)
    | none ↦ (true, put key (record { response = none }) m)
  ]

  unfoldable pub save : String → O → Storage O → Storage O
  save key o m = put key (record { response = some o }) m

  unfoldable pub find_by_key : String → Storage O → Option O
  find_by_key key m = elim (get key m) [ some e ↦ e.response | none ↦ none ]

  unfoldable pub release : String → Storage O → Storage O
  release key m = elim (get key m) [
    | none ↦ m
    | some e ↦ elim e.response [ some o ↦ m | none ↦ delete key m ]
  ]

  get-put :
      (k j : String) (e : Entry O) (m : Storage O)
      → get k (put j e m) ≡ (if is_same j k then some e else get k m)
  get-put k j e [] = refl
  get-put k j e (x ∷ m) = ground (arith, get-put k j e m)

  get-delete :
      (k j : String) (m : Storage O) → get k (delete j m) ≡ (if is_same j k then none else get k m)
  get-delete k j [] = ground arith
  get-delete k j (x ∷ m) = ground (arith, get-delete k j m)

  abbrev pub repository : IdempotencyRepository (Storage O) O
  repository = record {
    view = λ m k. slot (get k m);
    claim = claim;
    find_by_key = find_by_key;
    save = λ k o m. (ok tt, save k o m);
    release = release;
  }

  claim_law : (k : String) (m : Storage O) → (claim k m).0 ≡ is_free (slot (get k m))
  unfolding claim
  claim_law k m = ground arith

  view_claim_law :
      (k j : String) (m : Storage O)
      → slot (get j (claim k m).1)
        ≡ (if is_same k j && is_free (slot (get k m)) then in_flight else slot (get j m))
  unfolding claim
  view_claim_law k j m = ground (arith, get-put j k (record { response = none }) m)

  view_release_law :
      (k j : String) (m : Storage O)
      → slot (get j (release k m))
        ≡ (if is_same k j then released (slot (get j m)) else slot (get j m))
  unfolding release
  view_release_law k j m = ground (arith, get-delete j k m)

  pub in_memory-IsRepository : IsRepository repository
  unfolding find_by_key save
  in_memory-IsRepository = record {
    claimed = claim_law;
    view-claim = view_claim_law;
    found = λ k m. ground arith;
    view-save = λ k j o m _. ground (arith, get-put j k (record { response = some o }) m);
    view-release = view_release_law;
  }

  -- The in-memory repository keeps every promise of the idempotency port, and a save that throws
  -- has written nothing.
  pub repository-IsRepository : IsRepository repository × FailsWhole repository
  unfolding find_by_key save
  repository-IsRepository = (in_memory-IsRepository, λ k j o m e h. cc)
