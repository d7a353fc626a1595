-- ===== src/Exports.antt =====
-- backend/src/export/export.service.ts and `exportCsv` of backend/src/retirements/retirements.service.ts.
pub mod Service
pub mod Reading
