-- ===== src/Infra/Seed/Database/Appended.antt =====
-- What the statements of a transaction do to what it sees, as long as none is refused.
use money_across_borders.Base.{
  ℕ, suc, Option, none, some, List, [], ◌∷◌, ◌++◌, ◌≡◌, refl, sym, ap, ◌∙◌,
}
use money_across_borders.Domain.Errors.{DomainError, Result, ok, err}
use money_across_borders.Infra.Seed.Batches.{flatten}
use money_across_borders.Infra.Seed.Database.{
  Tables, Session, Query, ◌>>◌, pure, statement, send, changed,
}
use money_across_borders.Infra.Seed.Database.Writer.{insert_batches}

-- Some statement throws the error.
abbrev pub IsRefusal : (ℕ → Option DomainError) → DomainError → Type 0
IsRefusal refuses e = (n : ℕ) × (refuses n ≡ some e)

module _ {Float : Type 0} (refuses : ℕ → Option DomainError) where
  -- From a session, with nothing committed: the transaction sees `t`, or a statement was refused.
  abbrev pub Ran : Session Float → Tables Float → Result (Unit {0}) × Session Float → Type 0
  Ran s t (ok u, s') = (s'.committed ≡ s.committed) × (s'.working ≡ some t)
  Ran s t (err e, s') = (s'.committed ≡ s.committed) × IsRefusal refuses e

  -- In a transaction the work changes what is seen by `f`.
  unfoldable pub Does : Query Float (Unit {0}) → (Tables Float → Tables Float) → Type 0
  Does m f = (s : Session Float) (t : Tables Float) → s.working ≡ some t → Ran s (f t) (m s)

  pub statement-Does : (f : Tables Float → Tables Float) → Does (statement refuses f) f
  unfolding Does send
  statement-Does f s t h = go (refuses s.sent) refl
    where
      go :
          (o : Option DomainError)
          → refuses s.sent ≡ o
          → Ran s (f t) (elim o [
            | some e ↦ (err e, record s { sent = suc s.sent })
            | none ↦ (ok tt, changed f (record s { sent = suc s.sent }))
          ])
      go (some e) r = (refl, (s.sent, r))
      go none r = rw h (refl, refl)

  pub then_Does :
      (m k : Query Float (Unit {0})) (f g : Tables Float → Tables Float)
      → Does m f
      → Does k g
      → Does (m >> k) (λ t. g (f t))
  unfolding Does
  then_Does m k f g hm hk s t h = go (m s) (hm s t h)
    where
      go :
          (r : Result (Unit {0}) × Session Float)
          → Ran s (f t) r
          → Ran s (g (f t)) (elim r.0 [ ok a ↦ k r.1 | err e ↦ (err e, r.1) ])
      go (err e, s') q = q
      go (ok u, s') q = carry (k s') (hk s' (f t) q.1)
        where
          carry : (p : Result (Unit {0}) × Session Float) → Ran s' (g (f t)) p → Ran s (g (f t)) p
          carry (ok v, s'') w = (w.0 ∙ q.0, w.1)
          carry (err e, s'') w = (w.0 ∙ q.0, w.1)

  pub Does-agree :
      (m : Query Float (Unit {0})) (f g : Tables Float → Tables Float)
      → ((t : Tables Float) → f t ≡ g t)
      → Does m f
      → Does m g
  unfolding Does
  Does-agree m f g e h s t w = rw (sym (e t)) (h s t w)

  pub nothing_done :
      (f : Tables Float → Tables Float) → ((t : Tables Float) → f t ≡ t) → Does (pure tt) f
  unfolding Does
  nothing_done f e s t h = rw (e t) (refl, h)

  -- A loop of inserts does what one insert of all batches would do.
  pub insert_batches-Does :
      {A : Type 0} (insert add : List A → Tables Float → Tables Float)
      → ((b : List A) (t : Tables Float) → insert b t ≡ add b t)
      → ((t : Tables Float) → add [] t ≡ t)
      → ((b c : List A) (t : Tables Float) → add c (add b t) ≡ add (b ++ c) t)
      → (batches : List (List A))
      → Does (insert_batches refuses insert batches) (add (flatten batches))
  unfolding insert_batches
  insert_batches-Does insert add same none_added both [] = nothing_done (add []) none_added
  insert_batches-Does insert add same none_added both (b ∷ batches) =
      Does-agree _ _ _ (λ t. ap (add (flatten batches)) (same b t) ∙ both b (flatten batches) t)
        (then_Does _ _ _ _ (statement-Does (insert b))
          (insert_batches-Does insert add same none_added both batches))
