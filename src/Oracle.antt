-- ===== src/Oracle.antt =====
-- backend/src/oracle and the oracle jobs of backend/src/queue.
pub mod Queue
pub mod Rows
pub mod Service
pub mod Submissions
pub mod Flags
