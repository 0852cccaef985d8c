-- ===== src/Infra/Resilience.antt =====
-- src/infra/resilience: the errors, the backoff, the settings, and the client over the policies of the
-- package cockatiel.
pub mod Errors
pub mod Backoff
pub mod Client
pub mod Own
