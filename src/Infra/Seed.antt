-- ===== src/Infra/Seed.antt =====
-- The seed pipeline, src/infra/seed: rows for a database, generated from a configuration and a
-- pseudo-random number generator.
pub mod Run
pub mod Arithmetic
pub mod Rng
pub mod Types
pub mod Ledger
pub mod Yields
pub mod Dates
pub mod Names
pub mod Customers
pub mod Kyc
pub mod Wallets
pub mod Funding
pub mod Drafts
pub mod Completed
pub mod Remittances
pub mod Contention
pub mod Demo
pub mod Dataset
pub mod Config
pub mod Args
pub mod Batches
pub mod Database
pub mod Checks
pub mod RunSeed
