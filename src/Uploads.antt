-- ===== src/Uploads.antt =====
-- backend/src/uploads: files that are pinned to IPFS.
pub mod Service
pub mod Lifecycle
pub mod Certificates
pub mod Bounds
