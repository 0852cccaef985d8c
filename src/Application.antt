-- ===== src/Application.antt =====
-- The application layer, src/application: use cases over the tables and the ports.
pub mod LedgerService
pub mod Accounts
pub mod OpenWallet
pub mod SubmitKyc
pub mod SendRemittance
pub mod Idempotency
