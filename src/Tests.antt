-- ===== src/Tests.antt =====
-- Runs of the model at concrete inputs, and the theorems at inputs that meet their hypotheses.
mod Samples
mod Domain
mod Remittance
mod Idempotent
mod Accounts
mod Brokers
mod Draws
mod Seeding
mod RedisStore
mod Treasury
mod Database
mod Outside
