-- ===== src/Verifiers.antt =====
-- backend/src/verifiers and the whitelist of backend/src/admin: who may verify projects.
pub mod Service
pub mod Promotion
pub mod Whitelist
