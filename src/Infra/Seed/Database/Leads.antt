-- ===== src/Infra/Seed/Database/Leads.antt =====
-- What a query that gets through leads to: a rule for each way to build one.
use money_across_borders.Base.{ℕ, suc, Option, none, some, ◌≡◌, refl}
use money_across_borders.Domain.Errors.{DomainError, Result, ok, err}
use money_across_borders.Infra.Seed.Database.{Session, Query, ◌>>=◌, pure, lift, send}

module _ {Float A : Type 0} where
  -- A throw leads anywhere.
  abbrev pub Ends : (A → Session Float → Type 0) → Result A × Session Float → Type 0
  Ends Q (ok a, s) = Q a s
  Ends Q (err e, s) = Unit

  -- From a session of P, an answer and a session of Q.
  unfoldable pub Leads :
      (Session Float → Type 0) → Query Float A → (A → Session Float → Type 0) → Type 0
  Leads P m Q = (s : Session Float) → P s → Ends Q (m s)

module _ {Float : Type 0} (P : Session Float → Type 0) where
  pub pure_Leads :
      {A : Type 0} (Q : A → Session Float → Type 0) (a : A)
      → ((s : Session Float) → P s → Q a s)
      → Leads P (pure a) Q
  unfolding Leads
  pure_Leads Q a h = h

  pub lift_Leads :
      {A : Type 0} (Q : A → Session Float → Type 0) (r : Result A)
      → ((a : A) → r ≡ ok a → (s : Session Float) → P s → Q a s)
      → Leads P (lift r) Q
  unfolding Leads
  lift_Leads {A} Q r h s p = go r refl
    where
      go : (q : Result A) → r ≡ q → Ends Q (q, s)
      go (ok a) e = h a e s p
      go (err d) e = tt

  pub send_Leads :
      {A : Type 0} (refuses : ℕ → Option DomainError) (answer : Session Float → A)
      (effect : Session Float → Session Float) (Q : A → Session Float → Type 0)
      → ((s : Session Float) → P s → Q (answer s) (effect (record s { sent = suc s.sent })))
      → Leads P (send refuses answer effect) Q
  unfolding Leads send
  send_Leads refuses answer effect Q h s p = go (refuses s.sent)
    where
      go :
          (o : Option DomainError)
          → Ends Q (elim o [
            | some e ↦ (err e, record s { sent = suc s.sent })
            | none ↦ (ok (answer s), effect (record s { sent = suc s.sent }))
          ])
      go (some e) = tt
      go none = h s p

  pub then_Leads :
      {A B : Type 0} (m : Query Float A) (f : A → Query Float B) (Q : A → Session Float → Type 0)
      (R : B → Session Float → Type 0)
      → Leads P m Q
      → ((a : A) → Leads (Q a) (f a) R)
      → Leads P (m >>= f) R
  unfolding Leads
  then_Leads {A} {B} m f Q R h k s p = go (m s) (h s p)
    where
      go :
          (r : Result A × Session Float)
          → Ends Q r
          → Ends R (elim r.0 [ ok a ↦ f a r.1 | err e ↦ (err e, r.1) ])
      go (ok a, s') q = k a s' q
      go (err e, s') q = tt

  -- A computation that sends nothing, with what it gave.
  pub given :
      {A B : Type 0} (r : Result A) (f : A → Query Float B) (R : B → Session Float → Type 0)
      → ((a : A) → r ≡ ok a → Leads P (f a) R)
      → Leads P (lift r >>= f) R
  unfolding Leads
  given {A} r f R h s p = go r refl
    where
      go : (q : Result A) → r ≡ q → Ends R ((lift q >>= f) s)
      go (ok a) e = h a e s p
      go (err d) e = tt
