-- ===== src/Store/Tables.antt =====
-- The rows of the tables and the state that all repositories share.
use money_across_borders.Base.{Option, ℕ, String, ℤ, Bool, Option, List}
use money_across_borders.Domain.Errors.{DomainError}
use money_across_borders.Domain.Entities.{User, Account, KycProfile, LedgerEntry, Remittance}
use money_across_borders.Domain.Wallet.{Wallet}

-- src/application/shared/events/outbox-repository.ts
pub data OutboxBroker : Type 0 where
  rabbitmq kafka : OutboxBroker

-- The payloads that the use cases write.
pub data Payload (Float : Type 0) : Type 0 where
  account_created : String → String → String → String → Payload Float
  remittance_completed :
      record {
        remittance_id : String;
        sender_account_id : String;
        recipient_account_id : String;
        status : String;
        source_currency : String;
        source_amount_minor_units : ℤ;
        fee_minor_units : ℤ;
        destination_currency : String;
        converted_amount_minor_units : ℤ;
        exchange_rate : Float;
        created_at : String;
      }
      → Payload Float

pub record OutboxEventRecord (Float : Type 0) : Type 0 where
  pub id : String
  pub topic : String
  pub payload : Payload Float
  pub broker : OutboxBroker
  pub created_at : ℕ

-- src/application/compliance/repositories/kyc-dossier-repository.ts
pub record KycDossierAttachment : Type 0 where
  pub label : String
  pub reference : String

pub record KycDossier : Type 0 where
  pub kyc_profile_id : String
  pub account_id : String
  pub full_name : String
  pub document_id : String
  pub document_type : Option String
  pub attachments : List KycDossierAttachment
  pub notes : Option String
  pub submitted_at : String

-- The tables, with how many ids have been generated and how often the clock has been read.
pub record World (Float : Type 0) : Type 0 where
  pub users : List User
  pub accounts : List Account
  pub wallets : List Wallet
  pub ledger : List LedgerEntry
  pub remittances : List (Remittance Float)
  pub profiles : List KycProfile
  pub dossiers : List KycDossier
  pub outbox : List (OutboxEventRecord Float)
  pub published : List String
  pub generated : ℕ
  pub clock_reads : ℕ

-- What the program takes from packages and from the machine: the ids of `uuid`, in the order in
-- which they are generated, its test of a text, the readings of the clock, `toISOString`, and what a save
-- of a remittance, by its number, or of an event throws, if it throws: a database may refuse it.
pub record Environment : Type 0 where
  pub uuid_v7 : ℕ → String
  pub uuid_validate : String → Bool
  pub clock : ℕ → ℕ
  pub to_iso_string : ℕ → String
  pub save_fails : ℕ → Option DomainError
