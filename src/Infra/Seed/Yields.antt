-- ===== src/Infra/Seed/Yields.antt =====
-- What holds of the value that a run returns, if it returns.
use money_across_borders.Base.{ℕ}
use money_across_borders.Domain.Errors.{DomainError}
use money_across_borders.Infra.Seed.Run.{Run, ◌>>=◌, pure, throw}
use money_across_borders.Infra.Seed.Ledger.Traces.{Ends, then_Ends, Ends-any}

unfoldable pub Yields : {A : Type 0} → (A → Type 0) → Run ℕ A → Type 0
unfolding Ends
Yields P m = (s : ℕ) → Ends (λ a n. P a) (m s)

pub pure-Yields : {A : Type 0} (P : A → Type 0) (a : A) → P a → Yields P (pure a)
unfolding Yields Ends
pure-Yields P a h s = h

pub throw-Yields : {A : Type 0} (P : A → Type 0) (e : DomainError) → Yields P (throw e)
unfolding Yields Ends
throw-Yields P e s = tt

module _ {A B : Type 0} where
  pub then_Yields :
      (P : A → Type 0) (Q : B → Type 0) (m : Run ℕ A) (f : A → Run ℕ B)
      → Yields P m
      → ((a : A) → P a → Yields Q (f a))
      → Yields Q (m >>= f)
  unfolding Yields Ends
  then_Yields P Q m f h k s = then_Ends (λ a n. P a) (λ b n. Q b) f (m s) (h s) (λ a n p. k a p n)

  -- Where nothing is needed of the first value.
  pub always_Yields :
      (Q : B → Type 0) (m : Run ℕ A) (f : A → Run ℕ B)
      → ((a : A) → Yields Q (f a))
      → Yields Q (m >>= f)
  unfolding Yields Ends
  always_Yields Q m f k s =
      then_Ends (λ a n. Unit) (λ b n. Q b) f (m s) (Ends-any (m s)) (λ a n u. k a n)
