-- ===== src/Infra/Relay/Drained.antt =====
-- A tick with a broker that is up leaves nothing pending, where one batch is enough.
use money_across_borders.Base.{
  ℕ, zero, suc, ◌≤◌, String, true, ◌||◌, List, [], ◌∷◌, ◌++◌, ◌≡◌, refl, is_same, is_same_refl, map,
  filter, take, length, arith,
}
use money_across_borders.Domain.Errors.{ok}
use money_across_borders.Store.{World, OutboxEventRecord, OutboxBroker}
use money_across_borders.Store.Repositories.{find_unpublished, mark_published, contains, is_pending}
use money_across_borders.Infra.Relay.{Broker, batch_size, relay_event, relay_all, relay_once}

abbrev ids : {Float : Type 0} → List (OutboxEventRecord Float) → List String
ids = map λ e. e.id

-- The broker is reachable and takes every event.
pub record IsUp {Float Z : Type 0} (B : Broker Float Z) : Type 0 where
  pub connects : (z : Z) → (B.connect z).0 ≡ ok tt
  pub sends : (e : OutboxEventRecord Float) (z : Z) → (B.send e z).0 ≡ ok tt

pub contains_last :
    (id j : String) (xs : List String) → contains id (xs ++ j ∷ []) ≡ contains id xs || is_same j id
contains_last id j [] = ground arith
contains_last id j (x ∷ xs) = ground (arith, contains_last id j xs)

contains_marked :
    {Float : Type 0} (id j : String) (w : World Float)
    → contains id (mark_published j w).published ≡ contains id w.published || is_same j id
unfolding mark_published
contains_marked id j w = ground (arith, contains_last id j w.published)

module _ {Float Z : Type 0} (B : Broker Float Z) (up : IsUp B) where
  relay_event_marks :
      (e : OutboxEventRecord Float) (w : World Float) (z : Z)
      → (relay_event B e (w, z)).0 ≡ mark_published e.id w
  unfolding relay_event
  relay_event_marks e w z = ground (arith, up.sends e z)

  relay_all_marks :
      (es : List (OutboxEventRecord Float)) (w : World Float) (z : Z) (id : String)
      → contains id (relay_all B es (w, z)).0.published
        ≡ contains id w.published || contains id (ids es)
  unfolding relay_all
  relay_all_marks [] w z id = ground arith
  relay_all_marks (e ∷ es) w z id =
      let (w', z') = relay_event B e (w, z) in
      ground (
        arith,
        relay_all_marks es (relay_event B e (w, z)).0 (relay_event B e (w, z)).1 id,
        relay_event_marks e w z,
        contains_marked id e.id w,
      )

  relay_all_keeps :
      (es : List (OutboxEventRecord Float)) (w : World Float) (z : Z)
      → (relay_all B es (w, z)).0.outbox ≡ w.outbox
  unfolding relay_all relay_event mark_published
  relay_all_keeps [] w z = refl
  relay_all_keeps (e ∷ es) w z =
      ground (arith, relay_all_keeps es (relay_event B e (w, z)).0 (relay_event B e (w, z)).1)

none_pending :
    {Float : Type 0} (broker : OutboxBroker) (before after : List String)
    (es : List (OutboxEventRecord Float))
    → ((id : String) → contains id before ≡ true → contains id after ≡ true)
    → ((id : String)
        → contains id (ids (filter (is_pending broker before) es)) ≡ true
        → contains id after ≡ true)
    → filter (is_pending broker after) es ≡ []
none_pending broker before after [] h k = refl
none_pending broker before after (e ∷ es) h k =
    let rest = none_pending broker before after es h (λ id c. ground (arith, k id)) in
    ground (arith, rest, h e.id, k e.id, is_same_refl e.id)

take_all : {A : Type 0} (n : ℕ) (xs : List A) → length xs ≤ n → take n xs ≡ xs
take_all zero [] h = refl
take_all (suc n) [] h = refl
take_all zero (x ∷ xs) h = absurd (omega arith)
take_all (suc n) (x ∷ xs) h = ground (arith, take_all n xs)

-- A tick marks its batch, and nothing else, and leaves the events.
relay_once_marks :
    {Float Z : Type 0} (B : Broker Float Z) (up : IsUp B) (broker : OutboxBroker) (w : World Float)
    (z : Z) (id : String)
    → let after = (relay_once B broker (w, z)).0 in
      (contains id after.published
        ≡ contains id w.published || contains id (ids (find_unpublished batch_size broker w)))
      × (after.outbox ≡ w.outbox)
unfolding relay_once
relay_once_marks B up broker w z id =
    let batch = find_unpublished batch_size broker w in
    ground (
      arith,
      up.connects z,
      relay_all_marks B up batch w (B.connect z).1 id,
      relay_all_keeps B up batch w (B.connect z).1,
    )

-- Where the broker is up and at most a batch of its events is pending, one tick of its relay
-- leaves none pending.
pub relay_once_drains :
    {Float Z : Type 0} (B : Broker Float Z) (up : IsUp B) (broker : OutboxBroker) (w : World Float)
    (z : Z)
    → length (filter (is_pending broker w.published) w.outbox) ≤ batch_size
    → find_unpublished batch_size broker (relay_once B broker (w, z)).0 ≡ []
unfolding find_unpublished
relay_once_drains B up broker w z h =
    let after = (relay_once B broker (w, z)).0 in
    let batch = take_all batch_size (filter (is_pending broker w.published) w.outbox) h in
    let none =
      none_pending broker w.published after.published w.outbox
        (λ id c. ground (arith, relay_once_marks B up broker w z id))
        (λ id c. ground (arith, batch, relay_once_marks B up broker w z id)) in
    ground (arith, none, relay_once_marks B up broker w z "")
