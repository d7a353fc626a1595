-- ===== src/Monitoring.antt =====
-- backend/src/logger: the metrics of the dashboard, the alerts they raise, and the tracking of
-- submissions.
pub mod Service
pub mod Alerts
