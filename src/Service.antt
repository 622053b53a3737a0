-- ===== src/Service.antt =====
-- The service module of the repository: what it keeps between the calls of its clients.
pub mod Runtime
pub mod Approvals
