-- ===== src/Main.antt =====
-- The process: src/main/graceful-shutdown.ts and src/main/readiness.ts
pub mod Shutdown
pub mod Readiness
