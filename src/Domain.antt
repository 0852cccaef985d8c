-- ===== src/Domain.antt =====
-- The domain layer, src/domain: value objects, entities and the legs of a posting.
pub mod Errors
pub mod Numbers
pub mod Currency
pub mod Money
pub mod Exchange
pub mod Statuses
pub mod Entities
pub mod Wallet
pub mod Ledger
