-- ===== src/Infra/Seed/Demo.antt =====
-- src/infra/seed/generators/idempotency-demo-generator.ts
use Prim.Native.String.{◌++◌ as append}
use money_across_borders.Base.{ℕ, String, ℤ, Option, none, some, List, [], ◌∷◌, if◌then◌else◌}
use money_across_borders.Domain.Numbers.{Floats}
use money_across_borders.Infra.Seed.Run.{Run, ◌>>=◌, pure}
use money_across_borders.Infra.Seed.Arithmetic.{Arithmetic}
use money_across_borders.Infra.Seed.Rng.{chance}
use money_across_borders.Infra.Seed.Types.{SeedRemittanceRow, SeedConfig}

-- The response, without its constant note.
pub record DemoResponse : Type 0 where
  pub remittance_id : String
  pub sender_account_id : String
  pub recipient_account_id : String
  pub source_amount_minor_units : ℤ
  pub source_currency : String
  pub status : String

pub record SeedIdempotencyRecordRow : Type 0 where
  pub key : String
  pub request_hash : Option String
  pub response_body : DemoResponse
  pub status_code : Option ℕ
  pub created_at : ℤ

abbrev demo_row : {Float : Type 0} → SeedRemittanceRow Float → SeedIdempotencyRecordRow
demo_row r = record {
  key = append "seed-demo:" r.id;
  request_hash = none;
  response_body = record {
    remittance_id = r.id;
    sender_account_id = r.sender_account_id;
    recipient_account_id = r.recipient_account_id;
    source_amount_minor_units = r.source_amount_minor_units;
    source_currency = r.source_currency;
    status = "COMPLETED";
  };
  status_code = some 201;
  created_at = r.created_at;
}

module _ (F : Floats) (M : Arithmetic F) (config : SeedConfig F.Float) where
  unfoldable pub generate_idempotency_demo_records :
      List (SeedRemittanceRow F.Float) → Run ℕ (List SeedIdempotencyRecordRow)
  unfolding chance
  generate_idempotency_demo_records [] = pure []
  generate_idempotency_demo_records (r ∷ rs) = do
    taken ← chance F M config.idempotency_demo_ratio
    rest ← generate_idempotency_demo_records rs
    pure (if taken then demo_row r ∷ rest else rest)
