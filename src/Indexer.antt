-- ===== src/Indexer.antt =====
-- backend/src/indexer/indexer.service.ts: the credit contract's events, copied to the database.
pub mod Rows
pub mod Service
pub mod Events
pub mod Replay
pub mod Statuses
pub mod Sync
