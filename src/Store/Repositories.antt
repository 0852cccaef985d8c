-- ===== src/Store/Repositories.antt =====
-- The in-memory repositories, one module of src/infra/persistence/in-memory each. A search reads
-- the tables, a save rewrites them.
use money_across_borders.Base.{
  ℕ, String, Bool, true, false, not, ◌&&◌, Option, none, some, List, [], ◌∷◌, ◌++◌, is_same, find,
  filter, upsert, take, if◌then◌else◌,
}
use money_across_borders.Domain.Currency.{Currency}
use money_across_borders.Domain.Currency
use money_across_borders.Domain.Wallet.{Wallet}
use money_across_borders.Domain.Entities.{User, Account, KycProfile, LedgerEntry, Remittance}
use money_across_borders.Store.Tables.{
  World, OutboxBroker, rabbitmq, kafka, OutboxEventRecord, KycDossier,
}

abbrev pub has_wallet_id : String → Wallet → Bool
has_wallet_id id w = is_same w.id id

unfoldable pub save_wallet : Wallet → List Wallet → List Wallet
save_wallet wallet = upsert (has_wallet_id wallet.id) wallet

unfoldable pub find_wallet_by_id : String → List Wallet → Option Wallet
find_wallet_by_id id = find (has_wallet_id id)

unfoldable pub find_by_account_id_and_currency : String → Currency → List Wallet → Option Wallet
unfolding Currency.equals
find_by_account_id_and_currency account_id currency =
    find λ w. is_same w.account_id account_id && Currency.equals w.currency currency

unfoldable pub save_account : Account → List Account → List Account
save_account account accounts = accounts ++ account ∷ []

unfoldable pub find_account_by_id : String → List Account → Option Account
find_account_by_id id = find λ a. is_same a.id id

-- `a.getUserId()?.equals(userId) ?? false`
abbrev pub is_owned_by : String → Option String → Bool
is_owned_by user_id none = false
is_owned_by user_id (some id) = is_same id user_id

unfoldable pub find_account_by_user_id : String → List Account → Option Account
find_account_by_user_id user_id = find λ a. is_owned_by user_id a.user_id

unfoldable pub save_user : User → List User → List User
save_user user users = users ++ user ∷ []

unfoldable pub find_user_by_id : String → List User → Option User
find_user_by_id id = find λ u. is_same u.id id

unfoldable pub find_user_by_email : String → List User → Option User
find_user_by_email email = find λ u. is_same u.email email

unfoldable pub save_entries : List LedgerEntry → List LedgerEntry → List LedgerEntry
save_entries entries ledger = ledger ++ entries

unfoldable pub find_entries_by_wallet_id : String → List LedgerEntry → List LedgerEntry
find_entries_by_wallet_id id = filter λ e. is_same e.wallet_id id

unfoldable pub find_entries_by_transaction_id : String → List LedgerEntry → List LedgerEntry
find_entries_by_transaction_id id = filter λ e. is_same e.transaction_id id

unfoldable pub save_profile : KycProfile → List KycProfile → List KycProfile
save_profile profile = upsert (λ p. is_same p.account_id profile.account_id) profile

unfoldable pub find_profile_by_account_id : String → List KycProfile → Option KycProfile
find_profile_by_account_id id = find λ p. is_same p.account_id id

unfoldable pub save_dossier : KycDossier → List KycDossier → List KycDossier
save_dossier dossier = upsert (λ d. is_same d.kyc_profile_id dossier.kyc_profile_id) dossier

abbrev is_broker : OutboxBroker → OutboxBroker → Bool
is_broker rabbitmq rabbitmq = true
is_broker kafka kafka = true
is_broker _ _ = false

-- `published.has(id)`
abbrev pub contains : String → List String → Bool
contains id [] = false
contains id (x ∷ xs) = if is_same x id then true else contains id xs

module _ {Float : Type 0} where
  unfoldable pub save_remittance :
      Remittance Float → List (Remittance Float) → List (Remittance Float)
  save_remittance remittance = upsert (λ r. is_same r.id remittance.id) remittance

  unfoldable pub find_remittance_by_id :
      String → List (Remittance Float) → Option (Remittance Float)
  find_remittance_by_id id = find λ r. is_same r.id id

  unfoldable pub add_event :
      OutboxEventRecord Float → List (OutboxEventRecord Float) → List (OutboxEventRecord Float)
  add_event event events = events ++ event ∷ []

  abbrev pub is_pending : OutboxBroker → List String → OutboxEventRecord Float → Bool
  is_pending broker published event =
      not (contains event.id published) && is_broker event.broker broker

  unfoldable pub find_unpublished : ℕ → OutboxBroker → World Float → List (OutboxEventRecord Float)
  find_unpublished limit broker w = take limit (filter (is_pending broker w.published) w.outbox)

  -- `Set.add`
  unfoldable pub mark_published : String → World Float → World Float
  mark_published id w = record w {
    published = if contains id w.published then w.published else w.published ++ id ∷ [];
  }
