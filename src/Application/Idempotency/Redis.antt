-- ===== src/Application/Idempotency/Redis.antt =====
-- RedisIdempotencyRepository of src/infra/persistence/redis/redis-idempotency-repository.ts over the
-- commands of Redis. No key expires in between.
use Prim.Native.String.{◌++◌ as append}
use Prim.Native.String.append as Clauses
use money_across_borders.Base.{
  String, Bool, true, false, ◌&&◌, Option, none, some, ◌≡◌, refl, sym, ◌∙◌, ap, is_same,
  eq_of_is_same, is_same_refl, ne_of_is_same, Bool-cases, if◌then◌else◌, arith,
}
use money_across_borders.Domain.Errors.{Result, ok}
use money_across_borders.Application.Idempotency.{
  Slot, free, in_flight, completed, is_free, response_of, released, IdempotencyRepository,
  IsRepository,
}

abbrev is_none : {A : Type 0} → Option A → Bool
is_none none = true
is_none (some a) = false

-- The commands that the adapter sends, on a store of type S: GET, SET with NX, SET, which goes over a
-- connection and may throw, and DEL.
pub record Redis (S : Type 0) : Type 0 where
  pub get : String → S → Option String
  pub set_nx : String → String → S → Bool × S
  pub set : String → String → S → Result (Unit {0}) × S
  pub del : String → S → S

-- What Redis documents of them. Nothing is said of a SET that throws, which may have been applied.
pub record IsRedis {S : Type 0} (R : Redis S) : Type 0 where
  pub set_nx_answer : (k v : String) (s : S) → (R.set_nx k v s).0 ≡ is_none (R.get k s)
  pub get-set_nx :
      (k v j : String) (s : S)
      → R.get j (R.set_nx k v s).1
        ≡ (if is_same k j && is_none (R.get k s) then some v else R.get j s)
  pub get-set :
      (k v j : String) (s : S)
      → (R.set k v s).0 ≡ ok tt
      → R.get j (R.set k v s).1 ≡ (if is_same k j then some v else R.get j s)
  pub get-del :
      (k j : String) (s : S) → R.get j (R.del k s) ≡ (if is_same k j then none else R.get j s)

-- `IN_FLIGHT`
abbrev pub in_flight_marker : String
in_flight_marker = "__IN_FLIGHT__"

-- `JSON.stringify` and `JSON.parse` at responses. A JSON text is not the marker, since none starts with
-- an underscore.
pub record Json (O : Type 0) : Type 0 where
  pub stringify : O → String
  pub parse : String → O
  pub parse-stringify : (o : O) → parse (stringify o) ≡ o
  pub no_marker : (o : O) → is_same (stringify o) in_flight_marker ≡ false

unfoldable pub to_redis_key : String → String
to_redis_key key = append "idempotency:" key

append_cancel : (p k j : String) → append p k ≡ append p j → k ≡ j
append_cancel String.[] k j e = sym (Clauses.nil k) ∙ e ∙ Clauses.nil j
append_cancel (String.◌∷◌ c p) k j e =
    let whole = sym (Clauses.cons c p k) ∙ e ∙ Clauses.cons c p j in append_cancel p k j (cc whole)

is_same-to_redis_key : (k j : String) → is_same (to_redis_key k) (to_redis_key j) ≡ is_same k j
unfolding to_redis_key
is_same-to_redis_key k j = go (is_same k j) (is_same (to_redis_key k) (to_redis_key j)) refl refl
  where
    go : (b c : Bool) → is_same k j ≡ b → is_same (to_redis_key k) (to_redis_key j) ≡ c → c ≡ b
    go true true hb hc = refl
    go false false hb hc = refl
    go true false hb hc = absurd (
        ne_of_is_same (to_redis_key k) (to_redis_key j) hc (ap to_redis_key (eq_of_is_same k j hb)))
    go false true hb hc = absurd (
        ne_of_is_same k j hb
          (append_cancel "idempotency:" k j (eq_of_is_same (to_redis_key k) (to_redis_key j) hc)))

module _ {S O : Type 0} (R : Redis S) (J : Json O) where
  open J use {stringify, parse}

  -- What a raw value stands for.
  abbrev slot : Option String → Slot O
  slot none = free
  slot (some raw) = if is_same raw in_flight_marker then in_flight else completed (parse raw)

  unfoldable pub claim : String → S → Bool × S
  unfolding to_redis_key
  claim key = R.set_nx (to_redis_key key) in_flight_marker

  unfoldable pub save : String → O → S → Result (Unit {0}) × S
  unfolding to_redis_key
  save key response = R.set (to_redis_key key) (stringify response)

  unfoldable pub find_by_key : String → S → Option O
  unfolding to_redis_key
  find_by_key key s = elim (R.get (to_redis_key key) s) [
    | none ↦ none
    | some raw ↦ if is_same raw in_flight_marker then none else some (parse raw)
  ]

  -- `RELEASE_IF_IN_FLIGHT_SCRIPT`, which Redis runs in one step.
  unfoldable pub release_if_in_flight : String → String → S → S
  release_if_in_flight k marker s = elim (R.get k s) [
    | none ↦ s
    | some raw ↦ if is_same raw marker then R.del k s else s
  ]

  unfoldable pub release : String → S → S
  unfolding to_redis_key release_if_in_flight
  release key = release_if_in_flight (to_redis_key key) in_flight_marker

  abbrev pub repository : IdempotencyRepository S O
  repository = record {
    view = λ s k. slot (R.get (to_redis_key k) s);
    claim = claim;
    find_by_key = find_by_key;
    save = save;
    release = release;
  }

  module _ (L : IsRedis R) where
    open L use {set_nx_answer, get-set_nx, get-set, get-del}

    is_free-slot : (o : Option String) → is_none o ≡ is_free (slot o)
    is_free-slot none = refl
    is_free-slot (some raw) = ground arith

    slot_claimed :
        (b : Bool) (o p : Option String)
        → slot (if b && is_none o then some in_flight_marker else p)
          ≡ (if b && is_free (slot o) then in_flight else slot p)
    slot_claimed true none p = rw (is_same_refl in_flight_marker) refl
    slot_claimed false none p = refl
    slot_claimed b (some raw) p = ground (arith, Bool-cases b)

    claim_law : (k : String) (s : S) → (claim k s).0 ≡ is_free (slot (R.get (to_redis_key k) s))
    unfolding claim
    claim_law k s =
        set_nx_answer (to_redis_key k) in_flight_marker s ∙ is_free-slot (R.get (to_redis_key k) s)

    view_claim_law :
        (k j : String) (s : S)
        → slot (R.get (to_redis_key j) (claim k s).1) ≡ (
            if is_same k j && is_free (slot (R.get (to_redis_key k) s))
            then in_flight
            else slot (R.get (to_redis_key j) s))
    unfolding claim
    view_claim_law k j s =
        ap slot (get-set_nx (to_redis_key k) in_flight_marker (to_redis_key j) s)
        ∙ slot_claimed (is_same (to_redis_key k) (to_redis_key j)) (R.get (to_redis_key k) s)
            (R.get (to_redis_key j) s)
        ∙ ap
            (λ b.
              if b && is_free (slot (R.get (to_redis_key k) s))
              then in_flight
              else slot (R.get (to_redis_key j) s))
            (is_same-to_redis_key k j)

    find_law :
        (k : String) (s : S) → find_by_key k s ≡ response_of (slot (R.get (to_redis_key k) s))
    unfolding find_by_key
    find_law k s = go (R.get (to_redis_key k) s)
      where
        go :
            (o : Option String)
            → elim o [
              | none ↦ none
              | some raw ↦ if is_same raw in_flight_marker then none else some (parse raw)
            ]
              ≡ response_of (slot o)
        go none = refl
        go (some raw) = ground arith

    slot_saved :
        (o : O) (b : Bool) (p : Option String)
        → slot (if b then some (stringify o) else p) ≡ (if b then completed o else slot p)
    slot_saved o true p = rw (J.no_marker o) (ap completed (J.parse-stringify o))
    slot_saved o false p = refl

    view_save_law :
        (k j : String) (o : O) (s : S)
        → (save k o s).0 ≡ ok tt
        → slot (R.get (to_redis_key j) (save k o s).1)
          ≡ (if is_same k j then completed o else slot (R.get (to_redis_key j) s))
    unfolding save
    view_save_law k j o s h =
        ap slot (get-set (to_redis_key k) (stringify o) (to_redis_key j) s h)
        ∙ slot_saved o (is_same (to_redis_key k) (to_redis_key j)) (R.get (to_redis_key j) s)
        ∙ ap (λ b. if b then completed o else slot (R.get (to_redis_key j) s))
            (is_same-to_redis_key k j)

    -- The script at a key, as another key sees it.
    view_release_law :
        (k j : String) (s : S)
        → slot (R.get (to_redis_key j) (release k s)) ≡ (
            if is_same k j
            then released (slot (R.get (to_redis_key j) s))
            else slot (R.get (to_redis_key j) s))
    unfolding release release_if_in_flight
    view_release_law k j s = go (R.get (to_redis_key k) s) (is_same k j) refl refl
      where
        same_key : is_same k j ≡ true → R.get (to_redis_key j) s ≡ R.get (to_redis_key k) s
        same_key hb = ap (λ x. R.get (to_redis_key x) s) (sym (eq_of_is_same k j hb))

        deleted :
            (b : Bool)
            → is_same k j ≡ b
            → R.get (to_redis_key j) (R.del (to_redis_key k) s)
              ≡ (if b then none else R.get (to_redis_key j) s)
        deleted b hb =
            get-del (to_redis_key k) (to_redis_key j) s
            ∙ ap (λ c. if c then none else R.get (to_redis_key j) s) (is_same-to_redis_key k j ∙ hb)

        held :
            (raw : String) (b m : Bool)
            → R.get (to_redis_key k) s ≡ some raw
            → is_same k j ≡ b
            → is_same raw in_flight_marker ≡ m
            → slot (R.get (to_redis_key j) (if m then R.del (to_redis_key k) s else s)) ≡ (
                if b
                then released (slot (R.get (to_redis_key j) s))
                else slot (R.get (to_redis_key j) s))
        held raw true true ho hb hm = rw (deleted true hb, same_key hb, ho, hm) refl
        held raw true false ho hb hm = rw (same_key hb, ho, hm) refl
        held raw false true ho hb hm = ap slot (deleted false hb)
        held raw false false ho hb hm = refl

        go :
            (o : Option String) (b : Bool)
            → R.get (to_redis_key k) s ≡ o
            → is_same k j ≡ b
            → slot (
                R.get (to_redis_key j) (elim o [
                  | none ↦ s
                  | some raw ↦ if is_same raw in_flight_marker then R.del (to_redis_key k) s else s
                ]))
              ≡ (if b
                  then released (slot (R.get (to_redis_key j) s))
                  else slot (R.get (to_redis_key j) s))
        go none true ho hb = rw (same_key hb, ho) refl
        go none false ho hb = refl
        go (some raw) b ho hb = held raw b (is_same raw in_flight_marker) ho hb refl

    -- Over commands that do what Redis documents, where no key expires, and JSON that parses
    -- what it printed and never prints the in-flight marker, the Redis repository keeps every
    -- promise of the idempotency port, whatever a SET that throws has written.
    pub redis-IsRepository : IsRepository repository
    redis-IsRepository = record {
      claimed = claim_law;
      view-claim = view_claim_law;
      found = find_law;
      view-save = view_save_law;
      view-release = view_release_law;
    }
