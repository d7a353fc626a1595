-- ===== src/Stats/Retired.antt =====
-- backend/src/stats: the tonnes of a retirement in the figures of the platform.
use carbonledger.Prisma.{Prisma}
