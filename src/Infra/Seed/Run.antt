-- ===== src/Infra/Seed/Run.antt =====
-- Code that reads and writes a state and throws. A throw ends the whole pipeline, so that no state is
-- kept with it.
use money_across_borders.Domain.Errors.{DomainError, Result, ok, err}

abbrev pub Run : Type 0 → Type 0 → Type 0
Run S A = S → Result (A × S)

infixl 5 ◌>>=◌ ◌>>◌
abbrev pub ◌>>=◌ : {S A B : Type 0} → Run S A → (A → Run S B) → Run S B
◌>>=◌ m f s = elim (m s) [ err e ↦ err e | ok r ↦ f r.0 r.1 ]

abbrev pub ◌>>◌ : {S A B : Type 0} → Run S A → Run S B → Run S B
m >> k = m >>= λ _. k

module _ {S A : Type 0} where
  abbrev pub pure : A → Run S A
  pure a s = ok (a, s)

  abbrev pub throw : DomainError → Run S A
  throw e s = err e

  abbrev pub lift : Result A → Run S A
  lift (ok a) s = ok (a, s)
  lift (err e) s = err e
