-- ===== src/Projects.antt =====
-- backend/src/projects: the status machine (project-state-machine.service.ts) and the service
-- (projects.service.ts). The e-mail to the owner is the queued job, not its text.
pub mod StateMachine
pub mod Service
pub mod Transitions
pub mod Effects
pub mod Lifecycle
