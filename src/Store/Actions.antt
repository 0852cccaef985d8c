-- ===== src/Store/Actions.antt =====
-- Actions: code that reads and writes the tables, and throws. What was written before a throw
-- stays written, unless a unit of work rolls it back.
use money_across_borders.Base.{ℕ, suc, String, none, some, if◌then◌else◌}
use money_across_borders.Domain.Errors.{DomainError, Result, ok, err, invalid}
use money_across_borders.Store.Tables.{World, Environment}

abbrev pub Action : Type 0 → Type 0 → Type 0
Action Float A = World Float → Result A × World Float

infixl 5 ◌>>=◌ ◌>>◌
abbrev pub ◌>>=◌ : {Float A B : Type 0} → Action Float A → (A → Action Float B) → Action Float B
◌>>=◌ m f w = let (r, w') = m w in elim r [ ok a ↦ f a w' | err e ↦ (err e, w') ]

abbrev pub ◌>>◌ : {Float A B : Type 0} → Action Float A → Action Float B → Action Float B
m >> k = m >>= λ _. k

module _ {Float A : Type 0} where
  abbrev pub pure : A → Action Float A
  pure a w = (ok a, w)

  abbrev pub throw : DomainError → Action Float A
  throw e w = (err e, w)

  -- A computation that touches no table.
  abbrev pub lift : Result A → Action Float A
  lift r w = (r, w)

  -- A computation that only reads.
  abbrev pub reads : (World Float → Result A) → Action Float A
  reads f w = (f w, w)

-- A write that cannot throw.
abbrev pub modify : {Float : Type 0} → (World Float → World Float) → Action Float (Unit {0})
modify f w = (ok tt, f w)

module _ (E : Environment) {Float : Type 0} where
  -- `XId.generate()` of the id classes.
  abbrev pub generate_id : Action Float String
  generate_id w = (ok (E.uuid_v7 w.generated), record w { generated = suc w.generated })

  -- `clock.now()`
  abbrev pub now : Action Float ℕ
  now w = (ok (E.clock w.clock_reads), record w { clock_reads = suc w.clock_reads })

-- A save that the environment may refuse, by its number in the use case. It writes nothing then.
unfoldable pub saving :
    {Float : Type 0} → Environment → ℕ → (World Float → World Float) → Action Float (Unit {0})
saving E n f w = elim (E.save_fails n) [ none ↦ (ok tt, f w) | some e ↦ (err e, w) ]

-- `AccountId.from(value)`
unfoldable pub account_id_from : Environment → String → Result String
account_id_from E value =
    if E.uuid_validate value then ok value else err (invalid "Invalid AccountId format")

-- The tables of one world, with the counters of a later one.
abbrev pub rolled_back : {Float : Type 0} → World Float → World Float → World Float
rolled_back before after = record before {
  generated = after.generated;
  clock_reads = after.clock_reads;
}

module _ {Float A : Type 0} where
  -- PostgresUnitOfWork.runInTransaction: commit a result, roll back and rethrow an error.
  unfoldable pub run_in_transaction : Action Float A → Action Float A
  run_in_transaction work w =
      let (r, w') = work w in elim r [ ok a ↦ (ok a, w') | err e ↦ (err e, rolled_back w w') ]

  -- InMemoryUnitOfWork.runInTransaction
  unfoldable pub run_in_memory : Action Float A → Action Float A
  run_in_memory work = work
