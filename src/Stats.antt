-- ===== src/Stats.antt =====
-- backend/src/stats: the figures of the platform, computed from the tables of the services.
pub mod Service
pub mod Volume
pub mod Retired
