-- ===== src/Core.antt =====
-- The core module of the repository: what the services share about remote calls.
pub mod Retry
