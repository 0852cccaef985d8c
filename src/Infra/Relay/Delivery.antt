-- ===== src/Infra/Relay/Delivery.antt =====
-- What a tick marks, the client of the broker has taken.
use money_across_borders.Base.{
  String, true, List, [], ◌∷◌, ◌++◌, ◌≡◌, refl, sym, ◌∙◌, ap, ◌⊎◌, is_same_refl, arith,
}
use money_across_borders.Domain.Errors.{ok, err}
use money_across_borders.Store.{World, OutboxEventRecord, OutboxBroker}
use money_across_borders.Store.Repositories.{find_unpublished, mark_published, contains}
use money_across_borders.Infra.Relay.{Broker, batch_size, relay_event, relay_all, relay_once}

module _ {Float Z : Type 0} (B : Broker Float Z) (remembered : Z → List String) where
  -- A record of ids that has those of the events of sends that returned, and keeps them.
  record Remembers : Type 0 where
    pub sent :
        (e : OutboxEventRecord Float) (z : Z)
        → (B.send e z).0 ≡ ok tt
        → contains e.id (remembered (B.send e z).1) ≡ true
    pub kept :
        (e : OutboxEventRecord Float) (id : String) (z : Z)
        → contains id (remembered z) ≡ true
        → contains id (remembered (B.send e z).1) ≡ true
    pub connected :
        (id : String) (z : Z)
        → contains id (remembered z) ≡ true
        → contains id (remembered (B.connect z).1) ≡ true

-- Every id that is marked as published is in the record.
abbrev pub IsRemembered : {Float Z : Type 0} → (Z → List String) → World Float × Z → Type 0
IsRemembered remembered (w, z) =
    (id : String) → contains id w.published ≡ true → contains id (remembered z) ≡ true

contains-append :
    (id j : String) (xs : List String)
    → contains id (xs ++ j ∷ []) ≡ true
    → (contains id xs ≡ true) ⊎ (j ≡ id)
contains-append id j [] h = ground arith
contains-append id j (x ∷ xs) h = ground (arith, contains-append id j xs)

marked :
    {Float : Type 0} (id j : String) (w : World Float)
    → contains id (mark_published j w).published ≡ true
    → (contains id w.published ≡ true) ⊎ (j ≡ id)
unfolding mark_published
marked id j w h = ground (arith, contains-append id j w.published)

module _ {Float Z : Type 0} (B : Broker Float Z) (remembered : Z → List String)
    (laws : Remembers B remembered) where
  relay_event-IsRemembered :
      (e : OutboxEventRecord Float) (w : World Float) (z : Z)
      → IsRemembered remembered (w, z)
      → IsRemembered remembered (relay_event B e (w, z))
  unfolding relay_event
  relay_event-IsRemembered e w z h id p =
      ground (arith, h id, laws.sent e z, laws.kept e id z, marked id e.id w)

  relay_all-IsRemembered :
      (es : List (OutboxEventRecord Float)) (s : World Float × Z)
      → IsRemembered remembered s
      → IsRemembered remembered (relay_all B es s)
  unfolding relay_all
  relay_all-IsRemembered [] s h = h
  relay_all-IsRemembered (e ∷ es) (w, z) h =
      relay_all-IsRemembered es (relay_event B e (w, z)) (relay_event-IsRemembered e w z h)

  relay_once-IsRemembered :
      (broker : OutboxBroker) (w : World Float) (z : Z)
      → IsRemembered remembered (w, z)
      → IsRemembered remembered (relay_once B broker (w, z))
  unfolding relay_once
  relay_once-IsRemembered broker w z h id p =
      let z' = (B.connect z).1 in
      let batch = find_unpublished batch_size broker w in
      ground (
        arith,
        h id,
        laws.connected id z,
        relay_all-IsRemembered batch (w, z') (λ j q. laws.connected j z (h j q)) id,
      )

-- A client that notes the id of each event that a send took without throwing.
abbrev pub noted : {Float Z : Type 0} → Broker Float Z → Broker Float (Z × List String)
noted B = record {
  connect = λ (z, ids). let (r, z') = B.connect z in (r, (z', ids));
  send = λ e (z, ids).
      let (r, z') = B.send e z in (r, (z', elim r [ ok _ ↦ ids ++ e.id ∷ [] | err _ ↦ ids ]));
}

abbrev pub notes : {Z : Type 0} → Z × List String → List String
notes (z, ids) = ids

contains_more :
    (id j : String) (xs : List String) → contains id xs ≡ true → contains id (xs ++ j ∷ []) ≡ true
contains_more id j [] h = ground arith
contains_more id j (x ∷ xs) h = ground (arith, contains_more id j xs)

contains_last : (id : String) (xs : List String) → contains id (xs ++ id ∷ []) ≡ true
contains_last id [] = ground (arith, is_same_refl id)
contains_last id (x ∷ xs) = ground (arith, contains_last id xs)

module _ {Float Z : Type 0} (B : Broker Float Z) where
  noted-Remembers : Remembers (noted B) notes
  noted-Remembers = record {
    sent = λ e z h. ground (arith, contains_last e.id z.1);
    kept = λ e id z h. ground (arith, contains_more id e.id z.1);
    connected = λ id z h. h;
  }

  abbrev forget : World Float × (Z × List String) → World Float × Z
  forget (w, (z, ids)) = (w, z)

  -- The notes change nothing of what the relay does.
  relay_event-forget :
      (e : OutboxEventRecord Float) (s : World Float × (Z × List String))
      → forget (relay_event (noted B) e s) ≡ relay_event B e (forget s)
  unfolding relay_event
  relay_event-forget e (w, (z, ids)) = ground arith

  relay_all-forget :
      (es : List (OutboxEventRecord Float)) (s : World Float × (Z × List String))
      → forget (relay_all (noted B) es s) ≡ relay_all B es (forget s)
  unfolding relay_all
  relay_all-forget [] s = refl
  relay_all-forget (e ∷ es) s =
      relay_all-forget es (relay_event (noted B) e s) ∙ ap (relay_all B es) (relay_event-forget e s)

  relay_once-forget :
      (broker : OutboxBroker) (s : World Float × (Z × List String))
      → forget (relay_once (noted B) broker s) ≡ relay_once B broker (forget s)
  unfolding relay_once
  relay_once-forget broker (w, (z, ids)) =
      ground
        (arith, relay_all-forget (find_unpublished batch_size broker w) (w, ((B.connect z).1, ids)))

  -- Over any client of a broker: where every event id that is marked as published is noted as
  -- taken by the client, and the id of each event is noted whose send returns, then after one
  -- tick of a relay, whatever connection or send throws in it, every id that is marked is noted.
  -- The notes change nothing of what the tick does.
  pub relay_once_marks_taken :
      (broker : OutboxBroker) (w : World Float) (z : Z) (ids : List String)
      → IsRemembered notes (w, (z, ids))
      → let (w', (z', ids')) = relay_once (noted B) broker (w, (z, ids)) in
        (relay_once B broker (w, z) ≡ (w', z'))
        × ((id : String) → contains id w'.published ≡ true → contains id ids' ≡ true)
  relay_once_marks_taken broker w z ids h = (
    sym (relay_once-forget broker (w, (z, ids))),
    relay_once-IsRemembered (noted B) notes noted-Remembers broker w (z, ids) h,
  )
