-- ===== src/Tests.antt =====
-- Sample data, the theorems at concrete inputs, and runs of the code.
mod Samples
mod Projects
mod Credits
mod Marketplace
mod Auth
mod Indexer
mod Webhook
mod KeyRotation
mod Oracle
mod Genesis
mod Frontend
mod Retirements
mod Verifiers
mod Uploads
mod Paging
mod Operations
mod Pages
mod Admin
mod Mail
