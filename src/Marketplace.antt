-- ===== src/Marketplace.antt =====
-- backend/src/marketplace: listings, purchases and the cache of listing pages.
pub mod Service
pub mod Purchases
pub mod Interleaving
pub mod Cache
