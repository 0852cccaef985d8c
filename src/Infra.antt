-- ===== src/Infra.antt =====
-- The adapters of src/infra that have logic of their own.
pub mod Pricing
pub mod Compliance
pub mod FxRates
pub mod Relay
pub mod Consumer
pub mod Seed
pub mod TreasurySeed
pub mod Retry
pub mod Resilience
pub mod FakeFxServer
pub mod HttpRates
