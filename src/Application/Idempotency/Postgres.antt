-- ===== src/Application/Idempotency/Postgres.antt =====
-- PostgresIdempotencyRepository of src/infra/persistence/postgresql/postgres-idempotency-repository.ts.
-- The key is unique, so that the table is a function of it.
use money_across_borders.Base.{
  ℕ, suc, String, Bool, true, false, ◌&&◌, Option, none, some, ◌≡◌, is_same, if◌then◌else◌, arith,
}
use money_across_borders.Domain.Errors.{DomainError, Result, ok, err}
use money_across_borders.Application.Idempotency.{
  Slot, free, in_flight, completed, is_free, response_of, released, IdempotencyRepository,
  IsRepository, FailsWhole,
}

-- A row of `idempotency_records`. NULL is `none`; a body is a JSON text.
pub record IdempotencyRow : Type 0 where
  pub request_hash : Option String
  pub response_body : Option String
  pub status_code : Option ℕ

-- The table, and how many saves were sent.
pub record Records : Type 0 where
  pub row : String → Option IdempotencyRow
  pub saves : ℕ

abbrev pub reserved : IdempotencyRow
reserved = record { request_hash = none; response_body = none; status_code = none }

abbrev put : String → Option IdempotencyRow → Records → Records
put key r s = record s { row = λ j. if is_same key j then r else s.row j }

-- `refuses n` is what the save number n throws, if it throws.
module _ {O : Type 0} (refuses : ℕ → Option DomainError) (stringify : O → String)
    (parse : String → O) where
  abbrev slot_of : Option String → Slot O
  slot_of none = in_flight
  slot_of (some body) = completed (parse body)

  abbrev slot : Option IdempotencyRow → Slot O
  slot none = free
  slot (some r) = slot_of r.response_body

  -- `INSERT INTO idempotency_records (key) VALUES ($1) ON CONFLICT (key) DO NOTHING`
  unfoldable pub claim : String → Records → Bool × Records
  claim key s = elim (s.row key) [ none ↦ (true, put key (some reserved) s) | some r ↦ (false, s) ]

  abbrev pub body_of : IdempotencyRow → Option O
  body_of r = elim r.response_body [ none ↦ none | some body ↦ some (parse body) ]

  unfoldable pub find_by_key : String → Records → Option O
  find_by_key key s = elim (s.row key) [ none ↦ none | some r ↦ body_of r ]

  -- The decorator gives no hash and no status code.
  abbrev pub saved : O → IdempotencyRow
  saved response = record {
    request_hash = none;
    response_body = some (stringify response);
    status_code = none;
  }

  -- `ON CONFLICT (key) DO UPDATE`, of every column.
  unfoldable pub save : String → O → Records → Result (Unit {0}) × Records
  save key response s =
      let s' = record s { saves = suc s.saves } in
      elim (refuses s.saves) [
        | some e ↦ (err e, s')
        | none ↦ (ok tt, put key (some (saved response)) s')
      ]

  -- `DELETE ... WHERE key = $1 AND response_body IS NULL`
  abbrev pub kept : IdempotencyRow → Option IdempotencyRow
  kept r = elim r.response_body [ none ↦ none | some body ↦ some r ]

  unfoldable pub release : String → Records → Records
  release key s = elim (s.row key) [ none ↦ s | some r ↦ put key (kept r) s ]

  abbrev pub repository : IdempotencyRepository Records O
  repository = record {
    view = λ s k. slot (s.row k);
    claim = claim;
    find_by_key = find_by_key;
    save = save;
    release = release;
  }

  claimed_law : (k : String) (s : Records) → (claim k s).0 ≡ is_free (slot (s.row k))
  unfolding claim
  claimed_law k s = ground arith

  view_claim_law :
      (k j : String) (s : Records)
      → slot ((claim k s).1.row j)
        ≡ (if is_same k j && is_free (slot (s.row k)) then in_flight else slot (s.row j))
  unfolding claim
  view_claim_law k j s = ground arith

  found_law : (k : String) (s : Records) → find_by_key k s ≡ response_of (slot (s.row k))
  unfolding find_by_key
  found_law k s = ground arith

  view_save_law :
      (k j : String) (o : O) (s : Records)
      → parse (stringify o) ≡ o
      → (save k o s).0 ≡ ok tt
      → slot ((save k o s).1.row j) ≡ (if is_same k j then completed o else slot (s.row j))
  unfolding save
  view_save_law k j o s e h = ground arith

  save_failed_law :
      (k j : String) (o : O) (s : Records) (e : DomainError)
      → (save k o s).0 ≡ err e
      → slot ((save k o s).1.row j) ≡ slot (s.row j)
  unfolding save
  save_failed_law k j o s e h = ground arith

  view_release_law :
      (k j : String) (s : Records)
      → slot ((release k s).row j)
        ≡ (if is_same k j then released (slot (s.row j)) else slot (s.row j))
  unfolding release
  view_release_law k j s = ground arith

  -- Where JSON parses what it printed, the Postgres repository keeps every promise of the
  -- idempotency port, whichever saves are refused, and a save that is refused has written
  -- nothing.
  pub postgres-IsRepository :
      ((o : O) → parse (stringify o) ≡ o) → IsRepository repository × FailsWhole repository
  postgres-IsRepository parses = (
    record {
      claimed = claimed_law;
      view-claim = view_claim_law;
      found = found_law;
      view-save = λ k j o s h. view_save_law k j o s (parses o) h;
      view-release = view_release_law;
    },
    save_failed_law,
  )
