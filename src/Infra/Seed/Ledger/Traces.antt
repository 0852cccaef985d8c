-- ===== src/Infra/Seed/Ledger/Traces.antt =====
-- Runs whose ledger entries tell what they do to the balances, step by step.
use money_across_borders.Base.{
  ℕ, String, Option, none, some, List, [], ◌∷◌, ◌++◌, ◌≡◌, refl, ap, Bool, true, false,
  if◌then◌else◌,
}
use money_across_borders.Domain.Errors.{DomainError, Result, ok, err}
use money_across_borders.Infra.Seed.Types.{SeedWalletRef, SeedLedgerEntryRow, Seed}
use money_across_borders.Infra.Seed.Run.{Run, ◌>>=◌, pure, throw, lift}
use money_across_borders.Infra.Seed.Ledger.{
  LegDraft, assert_balanced, require_balanced, draw, read, missing, require_treasury, treasury_of,
}
use money_across_borders.Infra.Seed.Ledger.Posted.{Posts, Posts-nil, Posts-append}

-- A run that returns leaves what the predicate says; one that throws leaves nothing to say.
unfoldable pub Ends : {S A : Type 0} → (A → S → Type 0) → Result (A × S) → Type 0
Ends P (err e) = Unit
Ends P (ok r) = P r.0 r.1

-- The rule for a chain of two.
module _ {S A B : Type 0} (P : A → S → Type 0) (Q : B → S → Type 0) (f : A → Run S B) where
  pub then_Ends :
      (r : Result (A × S))
      → Ends P r
      → ((a : A) (s : S) → P a s → Ends Q (f a s))
      → Ends Q (elim r [ err e ↦ err e | ok x ↦ f x.0 x.1 ])
  unfolding Ends
  then_Ends (err e) h k = tt
  then_Ends (ok x) h k = k x.0 x.1 h

module _ {S A : Type 0} (P Q : A → S → Type 0) where
  pub Ends-weaken : (r : Result (A × S)) → Ends P r → ((a : A) (s : S) → P a s → Q a s) → Ends Q r
  unfolding Ends
  Ends-weaken (err e) h k = tt
  Ends-weaken (ok x) h k = k x.0 x.1 h

pub Ends-any : {S A : Type 0} (r : Result (A × S)) → Ends (λ a s. Unit) r
unfolding Ends
Ends-any (err e) = tt
Ends-any (ok x) = tt

-- The balances move by the entries that the result holds.
unfoldable pub Traces : {A : Type 0} → (A → List SeedLedgerEntryRow) → Run Seed A → Type 0
unfolding Ends
Traces entries m = (s : Seed) → Ends (λ a s'. Posts s (entries a) s') (m s)

module _ {A : Type 0} where
  abbrev pub none_of : A → List SeedLedgerEntryRow
  none_of a = []

  -- A run that leaves every balance.
  abbrev pub IsQuiet : Run Seed A → Type 0
  IsQuiet m = Traces none_of m

  pub pure-Traces :
      (entries : A → List SeedLedgerEntryRow) (a : A) → entries a ≡ [] → Traces entries (pure a)
  unfolding Ends Traces
  pure-Traces entries a h s = rw (h) (Posts-nil s s refl refl)

  pub throw-Traces :
      (entries : A → List SeedLedgerEntryRow) (e : DomainError) → Traces entries (throw e)
  unfolding Ends Traces
  throw-Traces entries e s = tt

  pub lift-IsQuiet : (r : Result A) → IsQuiet (lift r)
  unfolding Ends Traces
  lift-IsQuiet (ok a) s = Posts-nil s s refl refl
  lift-IsQuiet (err e) s = tt

  pub draw-IsQuiet : (m : Run ℕ A) → IsQuiet (draw m)
  unfolding Traces draw
  draw-IsQuiet m s = go (m s.rng)
    where
      go :
          (r : Result (A × ℕ))
          → Ends
              (λ a s'. Posts s [] s')
              (elim r [ err e ↦ err e | ok x ↦ ok (x.0, record s { rng = x.1 }) ])
      go (err e) = tt
      go (ok x) = Posts-nil s (record s { rng = x.1 }) refl refl

  pub read-IsQuiet : (f : Seed → A) → IsQuiet (read f)
  unfolding Ends Traces read
  read-IsQuiet f s = Posts-nil s s refl refl

  pub if_Traces :
      (entries : A → List SeedLedgerEntryRow) (b : Bool) (m k : Run Seed A)
      → Traces entries m
      → Traces entries k
      → Traces entries (if b then m else k)
  if_Traces entries true m k hm hk = hm
  if_Traces entries false m k hm hk = hk

pub require_treasury-IsQuiet : (currency : String) → IsQuiet (require_treasury currency)
unfolding Ends Traces require_treasury
require_treasury-IsQuiet currency s = go (treasury_of currency s)
  where
    go :
        (o : Option SeedWalletRef)
        → Ends
            (λ w s'. Posts s [] s')
            (elim o [ none ↦ err (missing currency) | some w ↦ ok (w, s) ])
    go none = tt
    go (some w) = Posts-nil s s refl refl

pub require_balanced-IsQuiet : (legs : List LegDraft) → IsQuiet (require_balanced legs)
unfolding require_balanced
require_balanced-IsQuiet legs = lift-IsQuiet (assert_balanced legs)

-- A quiet run whose result has a property.
unfoldable pub Knows : {A : Type 0} → (A → Type 0) → Run Seed A → Type 0
unfolding Ends
Knows P m = (s : Seed) → Ends (λ a s'. P a × Posts s [] s') (m s)

pub draw-Knows :
    {A : Type 0} (P : A → Type 0) (m : Run ℕ A)
    → ((n : ℕ) → Ends (λ a k. P a) (m n))
    → Knows P (draw m)
unfolding Ends Knows draw
draw-Knows {A = A} P m h s = go (m s.rng) (h s.rng)
  where
    go :
        (r : Result (A × ℕ))
        → Ends (λ a n. P a) r
        → Ends
            (λ a s'. P a × Posts s [] s')
            (elim r [ err e ↦ err e | ok x ↦ ok (x.0, record s { rng = x.1 }) ])
    go (err e) h = tt
    go (ok x) h = (h, Posts-nil s (record s { rng = x.1 }) refl refl)

pub pure-Knows : {A : Type 0} (P : A → Type 0) (a : A) → P a → Knows P (pure a)
unfolding Ends Knows
pure-Knows P a h s = (h, Posts-nil s s refl refl)

module _ {A B : Type 0} where
  -- A quiet run, then one with entries.
  pub after_quiet :
      (entries : B → List SeedLedgerEntryRow) (m : Run Seed A) (f : A → Run Seed B)
      → IsQuiet m
      → ((a : A) → Traces entries (f a))
      → Traces entries (m >>= f)
  unfolding Ends Traces
  after_quiet entries m f h k s =
      then_Ends (λ a s'. Posts s [] s') (λ b s'. Posts s (entries b) s') f (m s) (h s)
        (λ a s' quiet.
          Ends-weaken (λ b t. Posts s' (entries b) t) (λ b t. Posts s (entries b) t) (f a s')
            (k a s') (λ b t h. Posts-append s s' t [] (entries b) quiet h))

  -- A quiet run of whose result something holds, then one with entries.
  pub after_known :
      (P : A → Type 0) (entries : B → List SeedLedgerEntryRow) (m : Run Seed A) (f : A → Run Seed B)
      → Knows P m
      → ((a : A) → P a → Traces entries (f a))
      → Traces entries (m >>= f)
  unfolding Ends Traces Knows
  after_known P entries m f h k s =
      then_Ends (λ a s'. P a × Posts s [] s') (λ b s'. Posts s (entries b) s') f (m s) (h s)
        (λ a s' quiet.
          Ends-weaken (λ b t. Posts s' (entries b) t) (λ b t. Posts s (entries b) t) (f a s')
            (k a quiet.0 s') (λ b t e. Posts-append s s' t [] (entries b) quiet.1 e))

  pub quiet_then_Knows :
      (P : B → Type 0) (m : Run Seed A) (f : A → Run Seed B)
      → IsQuiet m
      → ((a : A) → Knows P (f a))
      → Knows P (m >>= f)
  unfolding Ends Traces Knows
  quiet_then_Knows P m f h k s =
      then_Ends (λ a s'. Posts s [] s') (λ b s'. P b × Posts s [] s') f (m s) (h s)
        (λ a s' quiet.
          Ends-weaken (λ b t. P b × Posts s' [] t) (λ b t. P b × Posts s [] t) (f a s') (k a s')
            (λ b t e. (e.0, Posts-append s s' t [] [] quiet e.1)))

  -- A run with entries, then a result that holds them.
  pub then_pure :
      (p : A → List SeedLedgerEntryRow) (entries : B → List SeedLedgerEntryRow) (m : Run Seed A)
      (f : A → B)
      → ((a : A) → entries (f a) ≡ p a)
      → Traces p m
      → Traces entries (m >>= λ a. pure (f a))
  unfolding Ends Traces
  then_pure p entries m f e h s =
      then_Ends (λ a t. Posts s (p a) t) (λ b t. Posts s (entries b) t) (λ a. pure (f a)) (m s)
        (h s) (λ a t posts. rw (e a) posts)

module _ {A B C : Type 0} where
  -- Two runs whose results are put together.
  pub in_turn :
      (p : A → List SeedLedgerEntryRow) (q : B → List SeedLedgerEntryRow)
      (r : C → List SeedLedgerEntryRow) (join : A → B → C) (m : Run Seed A) (k : Run Seed B)
      → ((a : A) (b : B) → r (join a b) ≡ p a ++ q b)
      → Traces p m
      → Traces q k
      → Traces r (m >>= λ a. k >>= λ b. pure (join a b))
  unfolding Ends Traces
  in_turn p q r join m k e hm hk s =
      let Goal : C → Seed → Type 0 = λ c t. Posts s (r c) t in
      then_Ends (λ a t. Posts s (p a) t) Goal (λ a. k >>= λ b. pure (join a b)) (m s) (hm s)
        (λ a t ha.
          then_Ends (λ b u. Posts t (q b) u) Goal (λ b. pure (join a b)) (k t) (hk t)
            (λ b u hb. rw (e a b) (Posts-append s t u (p a) (q b) ha hb)))

-- The rest of a run, after entries that it has already made.
unfoldable pub TracesAfter :
    {B : Type 0} → List SeedLedgerEntryRow → (B → List SeedLedgerEntryRow) → Run Seed B → Type 0
unfolding Ends
TracesAfter made entries m =
    (s0 s : Seed) → Posts s0 made s → Ends (λ b t. Posts s0 (entries b) t) (m s)

append_nil : (es : List SeedLedgerEntryRow) → es ++ [] ≡ es
append_nil [] = refl
append_nil (e ∷ es) = ap (λ fs. e ∷ fs) (append_nil es)

pub TracesAfter-pure :
    {B : Type 0} (made : List SeedLedgerEntryRow) (entries : B → List SeedLedgerEntryRow) (b : B)
    → entries b ≡ made
    → TracesAfter made entries (pure b)
unfolding Ends TracesAfter
TracesAfter-pure made entries b h s0 s posts = rw h posts

module _ {A B : Type 0} (entries : B → List SeedLedgerEntryRow) where
  pub first :
      (p : A → List SeedLedgerEntryRow) (m : Run Seed A) (f : A → Run Seed B)
      → Traces p m
      → ((a : A) → TracesAfter (p a) entries (f a))
      → Traces entries (m >>= f)
  unfolding Ends TracesAfter Traces
  first p m f h k s =
      then_Ends (λ a t. Posts s (p a) t) (λ b t. Posts s (entries b) t) f (m s) (h s)
        (λ a t posts. k a s t posts)

  pub next_with :
      (made : List SeedLedgerEntryRow) (p : A → List SeedLedgerEntryRow) (m : Run Seed A)
      (f : A → Run Seed B)
      → Traces p m
      → ((a : A) → TracesAfter (made ++ p a) entries (f a))
      → TracesAfter made entries (m >>= f)
  unfolding Ends TracesAfter Traces
  next_with made p m f h k s0 s posts =
      then_Ends (λ a t. Posts s (p a) t) (λ b t. Posts s0 (entries b) t) f (m s) (h s)
        (λ a t more. k a s0 t (Posts-append s0 s t made (p a) posts more))

  pub next_quiet :
      (made : List SeedLedgerEntryRow) (m : Run Seed A) (f : A → Run Seed B)
      → IsQuiet m
      → ((a : A) → TracesAfter made entries (f a))
      → TracesAfter made entries (m >>= f)
  unfolding Ends TracesAfter Traces
  next_quiet made m f h k s0 s posts =
      then_Ends (λ a t. Posts s [] t) (λ b t. Posts s0 (entries b) t) f (m s) (h s)
        (λ a t quiet. k a s0 t (rw (append_nil made) at (Posts-append s0 s t made [] posts quiet)))
