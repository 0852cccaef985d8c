-- ===== src/Tests/Database.antt =====
-- A seed run of two customers on an empty database, and a writer whose third statement is refused.
use money_across_borders.Base.{
  ◌⊎◌, ℕ, ◌==◌, String, ℤ, pos, ◌+ℤ◌, ◌-ℤ◌, true, false, Option, none, some, List, [], ◌∷◌, ◌≡◌,
  refl, ◌⊎◌, inl, if◌then◌else◌, String_discrete,
}
use money_across_borders.Domain.Errors.{DomainError, Result, ok, err, invalid}
use money_across_borders.Infra.FxRates.{rate_in}
use money_across_borders.Domain.Numbers.{integer}
use money_across_borders.Infra.Seed.Config.{SeedConfigOverrides, merge_config, resolve_seed_config}
use money_across_borders.Infra.Seed.Args.{parse_seed_args}
use money_across_borders.Infra.Seed.Args.Accepted.{all_whole, parsed_args_resolve}
use money_across_borders.Infra.Seed.Database.{Session}
use money_across_borders.Infra.Seed.Demo.{DemoResponse}
use money_across_borders.Infra.Seed.Database.Appended.{IsRefusal}
use money_across_borders.Infra.Seed.Database.Writer.{SeedWriteBatch, write_seed_batch}
use money_across_borders.Infra.Seed.Database.Written.{with_batch, write_seed_batch_atomic}
use money_across_borders.Infra.Seed.Database.Setup.{nothing_left}
use money_across_borders.Infra.Seed.Checks.{
  debits_equal_credits, every_posting_balances, wallet_balances_match_ledger,
}
use money_across_borders.Infra.Seed.Checks.Rows.{is_distinct}
use money_across_borders.Infra.Seed.RunSeed.{Surroundings, run}
use money_across_borders.Infra.Seed.RunSeed.Validated.{run_checked}
use money_across_borders.Tests.Samples.{fixed_point}
use money_across_borders.Tests.Draws.{arithmetic}
use money_across_borders.Tests.Seeding.{same_day}

abbrev argv : List String
argv =
    "--customers" ∷ "2" ∷ "--reset" ∷ "--wallets" ∷ " 4" ∷ "--remittances" ∷ "4" ∷ "--seed" ∷ "7"
    ∷ []

abbrev overrides : SeedConfigOverrides
overrides = record {
  seed = some (integer (pos 7));
  customers = some (integer (pos 2));
  date_range_days = none;
  reset = some true;
  scenario = none;
  wallets_target = some (integer (pos 4));
  remittances_target = some (integer (pos 4));
}

parses : parse_seed_args some argv ≡ ok (some overrides)
unfolding parse_seed_args ◌+ℤ◌ ◌-ℤ◌ String_discrete
parses = refl

parsed_args_resolve_example :
    (resolve_seed_config fixed_point arithmetic overrides
      ≡ ok (merge_config fixed_point arithmetic overrides))
    ⊎ (all_whole fixed_point arithmetic overrides ≡ false)
parsed_args_resolve_example =
    parsed_args_resolve fixed_point arithmetic refl some argv overrides parses

abbrev around : Surroundings
around = record {
  rounded = some;
  production = false;
  random_uuid =
      λ n. if n == 0 then "u0" else (if n == 1 then "u1" else (if n == 2 then "u2" else "u3"));
  database_now = pos 0;
  write_requests = λ intents ids. ok tt;
  stringify = λ r. r.remittance_id;
  set_hours = same_day;
  password_hash = "hash";
  at = 0;
  now = pos 1700000000000;
}

abbrev nothing_refused : ℕ → Option DomainError
nothing_refused n = none

abbrev fresh : Session ℤ
fresh = record { committed = nothing_left; working = none; sent = 0 }

abbrev after : Session ℤ
after = (run fixed_point arithmetic around nothing_refused overrides fresh).1

ran : run fixed_point arithmetic around nothing_refused overrides fresh ≡ (ok true, after)
unfolding run ◌+ℤ◌ ◌-ℤ◌ String_discrete rate_in
ran = refl

keyed : is_distinct (λ w. w.id) after.committed.wallets ≡ true
unfolding run ◌+ℤ◌ ◌-ℤ◌ String_discrete rate_in
keyed = refl

resets : (merge_config fixed_point arithmetic overrides).reset ≡ true
unfolding merge_config
resets = refl

run_checked_example :
    (debits_equal_credits after.committed ≡ true)
    × (every_posting_balances after.committed ≡ true)
    × (wallet_balances_match_ledger after.committed ≡ true)
run_checked_example =
    run_checked fixed_point arithmetic around nothing_refused overrides fresh after true refl
      (inl resets) ran keyed

abbrev third_refused : ℕ → Option DomainError
third_refused n = if n == 3 then some (invalid "connection lost") else none

abbrev small_batch : SeedWriteBatch ℤ
small_batch = record {
  users = [];
  accounts =
      (record { id = "a1"; user_id = none; status_id = 1; created_at = pos 0 })
      ∷ (record { id = "a2"; user_id = none; status_id = 1; created_at = pos 0 })
      ∷ [];
  kyc_profiles = [];
  wallets =
      (record {
        id = "w1";
        account_id = "a1";
        currency = "USD";
        balance = pos 500;
        created_at = pos 0;
      })
      ∷ [];
  ledger_entries = [];
  remittances = [];
  idempotency_records = [];
  treasury_wallets = [];
}

abbrev ids : DemoResponse → String
ids r = r.remittance_id

abbrev interrupted : Result (Unit {0}) × Session ℤ
interrupted = write_seed_batch third_refused ids small_batch fresh

interrupted_fails : interrupted.0 ≡ err (invalid "connection lost")
unfolding write_seed_batch
interrupted_fails = refl

write_seed_batch_atomic_example :
    ((interrupted.0 ≡ ok tt)
      × (interrupted.1.committed ≡ with_batch ids small_batch nothing_left)
      × (interrupted.1.working ≡ none))
    ⊎ ((e : DomainError) × (interrupted.0 ≡ err e)
        × (interrupted.1.committed ≡ nothing_left)
        × IsRefusal third_refused e)
write_seed_batch_atomic_example = write_seed_batch_atomic third_refused ids small_batch fresh refl
