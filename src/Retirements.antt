-- ===== src/Retirements.antt =====
-- backend/src/retirements: the indexer of retirement events and the check of certificates.
pub mod Service
pub mod Laws
