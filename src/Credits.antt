-- ===== src/Credits.antt =====
-- backend/src/credits: minting, retirement and serial lookup (credits.service.ts).
pub mod Service
pub mod Minting
pub mod Retiring
