-- ===== src/Genesis.antt =====
-- backend/src/indexer.ts: the script that indexes all contracts from the first ledger on.
pub mod Service
pub mod Order
pub mod Runs
pub mod Fetch
