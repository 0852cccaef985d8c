-- ===== src/Infra/Seed/Database.antt =====
-- The database of a seed run: the tables of
-- src/infra/persistence/postgresql/migrations/001_init_schema.sql that the run touches, and a client of the
-- pool with its transaction.
pub mod Unnest
pub mod Writer
pub mod Appended
pub mod Rows
pub mod Committed
pub mod Written
pub mod Setup
pub mod Leads
use money_across_borders.Base.{ℕ, suc, String, ℤ, Option, none, some, List, ◌++◌, ◌≡◌, refl}
use money_across_borders.Domain.Errors.{DomainError, Result, ok, err}
use money_across_borders.Infra.Seed.Types.{
  SeedUserRow, SeedAccountRow, SeedKycProfileRow, SeedLedgerEntryRow, SeedRemittanceRow,
}

pub record SeedWalletRow : Type 0 where
  pub id : String
  pub account_id : String
  pub currency : String
  pub balance_minor_units : ℤ
  pub status_id : ℕ
  pub created_at : ℤ

-- A row of `idempotency_records`. The body is the JSON text that was sent.
pub record IdempotencyRow : Type 0 where
  pub key : String
  pub request_hash : Option String
  pub response_body : String
  pub status_code : Option ℕ
  pub created_at : ℤ

pub record Tables (Float : Type 0) : Type 0 where
  pub users : List SeedUserRow
  pub accounts : List SeedAccountRow
  pub kyc_profiles : List SeedKycProfileRow
  pub wallets : List SeedWalletRow
  pub ledger_entries : List SeedLedgerEntryRow
  pub remittances : List (SeedRemittanceRow Float)
  pub idempotency_records : List IdempotencyRow

-- What is committed, what an open transaction sees, and how many statements were sent.
pub record Session (Float : Type 0) : Type 0 where
  pub committed : Tables Float
  pub working : Option (Tables Float)
  pub sent : ℕ

abbrev pub Query : Type 0 → Type 0 → Type 0
Query Float A = Session Float → Result A × Session Float

infixl 5 ◌>>=◌ ◌>>◌
abbrev pub ◌>>=◌ : {Float A B : Type 0} → Query Float A → (A → Query Float B) → Query Float B
◌>>=◌ m f s = let (r, s') = m s in elim r [ ok a ↦ f a s' | err e ↦ (err e, s') ]

abbrev pub ◌>>◌ : {Float A B : Type 0} → Query Float A → Query Float B → Query Float B
m >> k = m >>= λ _. k

module _ {Float A : Type 0} where
  abbrev pub pure : A → Query Float A
  pure a s = (ok a, s)

  -- A computation that sends nothing.
  abbrev pub lift : Result A → Query Float A
  lift r s = (r, s)

-- What a statement reads, and what it writes.
abbrev pub seen : {Float : Type 0} → Session Float → Tables Float
seen s = elim s.working [ none ↦ s.committed | some t ↦ t ]

abbrev pub changed :
    {Float : Type 0} → (Tables Float → Tables Float) → Session Float → Session Float
changed change s = elim s.working [
  | none ↦ record s { committed = change s.committed }
  | some t ↦ record s { working = some (change t) }
]

abbrev pub begun : {Float : Type 0} → Session Float → Session Float
begun s = elim s.working [ none ↦ record s { working = some s.committed } | some t ↦ s ]

abbrev pub committed_now : {Float : Type 0} → Session Float → Session Float
committed_now s = elim s.working [ none ↦ s | some t ↦ record s { committed = t; working = none } ]

-- `refuses n` is what the statement number n throws, if it throws: a lost connection, a constraint.
module _ {Float : Type 0} (refuses : ℕ → Option DomainError) where
  -- A statement that throws changes nothing.
  unfoldable pub send :
      {A : Type 0} → (Session Float → A) → (Session Float → Session Float) → Query Float A
  send answer effect s =
      let s' = record s { sent = suc s.sent } in
      elim (refuses s.sent) [ some e ↦ (err e, s') | none ↦ (ok (answer s), effect s') ]

  abbrev pub statement : (Tables Float → Tables Float) → Query Float (Unit {0})
  statement change = send (λ s. tt) (changed change)

  abbrev pub select : {A : Type 0} → (Tables Float → A) → Query Float A
  select f = send (λ s. f (seen s)) (λ s. s)

  abbrev pub begin : Query Float (Unit {0})
  begin = send (λ s. tt) begun

  abbrev pub commit : Query Float (Unit {0})
  commit = send (λ s. tt) committed_now

  abbrev pub rollback : Query Float (Unit {0})
  rollback = send (λ s. tt) (λ s. record s { working = none })

  -- The `catch`: roll back, and throw on.
  unfoldable pub roll_back : DomainError → Query Float (Unit {0})
  unfolding send
  roll_back e = rollback >> lift (err e)

  -- BEGIN, the work and COMMIT in a `try`, on a client that the pool gives first.
  unfoldable pub in_transaction : Query Float (Unit {0}) → Query Float (Unit {0})
  unfolding send roll_back
  in_transaction work s =
      let (connected, s') = send (λ s. tt) (λ s. s) s in
      elim connected [
        | err e ↦ (err e, s')
        | ok _ ↦
            let (r, s'') = (begin >> work >> commit) s' in
            elim r [ ok _ ↦ (ok tt, s'') | err e ↦ roll_back e s'' ]
      ]
