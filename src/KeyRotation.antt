-- ===== src/KeyRotation.antt =====
-- backend/src/key-rotation/key-rotation.service.ts: rotations of the oracle's, the admin's and the
-- token keys.
pub mod Base64
pub mod Store
pub mod Requests
pub mod Service
pub mod Outcomes
