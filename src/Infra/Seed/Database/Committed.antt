-- ===== src/Infra/Seed/Database/Committed.antt =====
-- A transaction of the pool commits all of its work or nothing.
use money_across_borders.Base.{ℕ, suc, Option, none, some, ◌≡◌, refl, ap, ◌∙◌}
use money_across_borders.Domain.Errors.{DomainError, Result, ok, err}
use money_across_borders.Infra.Seed.Database.{
  Tables, Session, Query, ◌>>◌, send, begun, committed_now, commit, begin, lift, rollback,
  roll_back, in_transaction,
}
use money_across_borders.Infra.Seed.Database.Appended.{IsRefusal, Ran, Does}

module _ {Float : Type 0} (refuses : ℕ → Option DomainError) where
  -- The whole change is committed and no transaction is open, or nothing is and a statement threw.
  abbrev pub Ended : Tables Float → Tables Float → Result (Unit {0}) × Session Float → Type 0
  Ended before after (ok u, s) = (s.committed ≡ after) × (s.working ≡ none)
  Ended before after (err e, s) = (s.committed ≡ before) × IsRefusal refuses e

  Ended-agree :
      (b c a d : Tables Float) (p : Result (Unit {0}) × Session Float)
      → b ≡ c
      → a ≡ d
      → Ended b a p
      → Ended c d p
  Ended-agree b c a d (ok u, s) same same' q = (q.0 ∙ same', q.1)
  Ended-agree b c a d (err e, s) same same' q = (q.0 ∙ same, q.1)

  commit-Ended :
      (s : Session Float) (t : Tables Float)
      → s.working ≡ some t
      → Ended s.committed t (commit refuses s)
  unfolding send
  commit-Ended s t h = go (refuses s.sent) refl
    where
      go :
          (o : Option DomainError)
          → refuses s.sent ≡ o
          → Ended s.committed t (elim o [
            | some e ↦ (err e, record s { sent = suc s.sent })
            | none ↦ (ok tt, committed_now (record s { sent = suc s.sent }))
          ])
      go (some e) r = (refl, (s.sent, r))
      go none r = rw h (refl, refl)

  -- A transaction is open on what is committed, or a statement threw.
  abbrev Opened : Session Float → Result (Unit {0}) × Session Float → Type 0
  Opened s (ok u, s') = (s'.committed ≡ s.committed) × (s'.working ≡ some s.committed)
  Opened s (err e, s') = (s'.committed ≡ s.committed) × IsRefusal refuses e

  begin-Opened : (s : Session Float) → s.working ≡ none → Opened s (begin refuses s)
  unfolding send
  begin-Opened s idle = go (refuses s.sent) refl
    where
      go :
          (o : Option DomainError)
          → refuses s.sent ≡ o
          → Opened s (elim o [
            | some e ↦ (err e, record s { sent = suc s.sent })
            | none ↦ (ok tt, begun (record s { sent = suc s.sent }))
          ])
      go (some e) r = (refl, (s.sent, r))
      go none r = rw idle (refl, refl)

  abbrev returns : Result (Unit {0}) × Session Float → Query Float (Unit {0})
  returns p s = p

  body-Ended :
      (work : Query Float (Unit {0})) (f : Tables Float → Tables Float)
      → Does refuses work f
      → (s : Session Float) → s.working ≡ none
      → Ended s.committed (f s.committed) ((begin refuses >> work >> commit refuses) s)
  unfolding Does
  body-Ended work f h s idle = after_begin (begin refuses s) (begin-Opened s idle)
    where
      after_work :
          (s' : Session Float) (r : Result (Unit {0}) × Session Float)
          → s'.committed ≡ s.committed
          → Ran refuses s' (f s.committed) r
          → Ended s.committed (f s.committed) ((returns r >> commit refuses) s)
      after_work s' (err e, s'') same q = (q.0 ∙ same, q.1)
      after_work s' (ok u, s'') same q =
          Ended-agree s''.committed s.committed _ _ (commit refuses s'') (q.0 ∙ same) refl
            (commit-Ended s'' (f s.committed) q.1)

      after_begin :
          (p : Result (Unit {0}) × Session Float)
          → Opened s p
          → Ended s.committed (f s.committed) ((returns p >> work >> commit refuses) s)
      after_begin (err e, s') q = q
      after_begin (ok u, s') q = after_work s' (work s') q.0 (h s' s.committed q.1)

  abbrev RolledBack : Session Float → Result (Unit {0}) × Session Float → Type 0
  RolledBack s (ok u, s') = s'.committed ≡ s.committed
  RolledBack s (err e, s') = (s'.committed ≡ s.committed) × IsRefusal refuses e

  rollback-RolledBack : (s : Session Float) → RolledBack s (rollback refuses s)
  unfolding send
  rollback-RolledBack s = go (refuses s.sent) refl
    where
      go :
          (o : Option DomainError)
          → refuses s.sent ≡ o
          → RolledBack s (elim o [
            | some e ↦ (err e, record s { sent = suc s.sent })
            | none ↦ (ok tt, record s { working = none; sent = suc s.sent })
          ])
      go (some e) r = (refl, (s.sent, r))
      go none r = refl

  roll_back-Ended :
      (before after : Tables Float) (e : DomainError) (s : Session Float)
      → s.committed ≡ before
      → IsRefusal refuses e
      → Ended before after (roll_back refuses e s)
  unfolding roll_back
  roll_back-Ended before after e s h thrown = go (rollback refuses s) (rollback-RolledBack s)
    where
      go :
          (p : Result (Unit {0}) × Session Float)
          → RolledBack s p
          → Ended before after ((returns p >> lift (err e)) s)
      go (ok u, s') q = (q ∙ h, thrown)
      go (err d, s') q = (q.0 ∙ h, q.1)

  abbrev Connected : Session Float → Result (Unit {0}) × Session Float → Type 0
  Connected s (ok u, s') = (s'.committed ≡ s.committed) × (s'.working ≡ s.working)
  Connected s (err e, s') = (s'.committed ≡ s.committed) × IsRefusal refuses e

  connect-Connected : (s : Session Float) → Connected s (send refuses (λ z. tt) (λ z. z) s)
  unfolding send
  connect-Connected s = go (refuses s.sent) refl
    where
      go :
          (o : Option DomainError)
          → refuses s.sent ≡ o
          → Connected s (elim o [
            | some e ↦ (err e, record s { sent = suc s.sent })
            | none ↦ (ok tt, record s { sent = suc s.sent })
          ])
      go (some e) r = (refl, (s.sent, r))
      go none r = (refl, refl)

  -- A transaction commits what its work does, or nothing.
  pub in_transaction-Ended :
      (work : Query Float (Unit {0})) (f : Tables Float → Tables Float)
      → Does refuses work f
      → (s : Session Float) → s.working ≡ none
      → Ended s.committed (f s.committed) (in_transaction refuses work s)
  unfolding in_transaction
  in_transaction-Ended work f h s idle =
      connected (send refuses (λ z. tt) (λ z. z) s) (connect-Connected s)
    where
      settled :
          (r : Result (Unit {0}) × Session Float)
          → Ended s.committed (f s.committed) r
          → Ended s.committed
              (f s.committed)
              (elim r.0 [ ok u ↦ (ok tt, r.1) | err e ↦ roll_back refuses e r.1 ])
      settled (ok u, s') q = q
      settled (err e, s') q = roll_back-Ended s.committed (f s.committed) e s' q.0 q.1

      connected :
          (p : Result (Unit {0}) × Session Float)
          → Connected s p
          → Ended s.committed (f s.committed) (elim p.0 [
            | err e ↦ (err e, p.1)
            | ok u ↦
                let (r, s'') = (begin refuses >> work >> commit refuses) p.1 in
                elim r [ ok v ↦ (ok tt, s'') | err e ↦ roll_back refuses e s'' ]
          ])
      connected (err e, s') q = q
      connected (ok u, s') q = settled ((begin refuses >> work >> commit refuses) s') (
          Ended-agree s'.committed s.committed _ _ ((begin refuses >> work >> commit refuses) s')
            q.0 (ap f q.0) (body-Ended work f h s' (q.1 ∙ idle)))
