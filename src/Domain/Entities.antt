-- ===== src/Domain/Entities.antt =====
-- The entities of src/domain with no behaviour of their own but getters. Ids are the texts that
-- the id classes wrap; dates are numbers of milliseconds.
use money_across_borders.Base.{ℕ, String, Option}
use money_across_borders.Domain.Money.{Money}
use money_across_borders.Domain.Statuses.{
  AccountStatus, UserStatus, KycStatus, RemittanceStatus, EntryDirection,
}

pub record User : Type 0 where
  pub id : String
  pub email : String
  pub password_hash : String
  pub status : UserStatus
  pub created_at : ℕ

-- The treasury's account has no user.
pub record Account : Type 0 where
  pub id : String
  pub user_id : Option String
  pub status : AccountStatus
  pub created_at : ℕ

pub record KycProfile : Type 0 where
  pub id : String
  pub account_id : String
  pub status : KycStatus
  pub full_name : String
  pub document_id : String
  pub verified_at : Option ℕ
  pub created_at : ℕ

pub record LedgerEntry : Type 0 where
  pub id : String
  pub wallet_id : String
  pub direction : EntryDirection
  pub money : Money
  pub transaction_id : String
  pub description : String
  pub created_at : ℕ

pub record Remittance (Float : Type 0) : Type 0 where
  pub id : String
  pub sender_account_id : String
  pub recipient_account_id : String
  pub source_wallet_id : String
  pub destination_wallet_id : String
  pub source_amount : Money
  pub fee : Money
  pub converted_amount : Money
  pub exchange_rate : Float
  pub status : RemittanceStatus
  pub created_at : ℕ
