-- ===== src/Auth.antt =====
-- backend/src/auth: challenge and login (auth.service.ts), the guard of the routes (roles.guard.ts)
-- and the limit on logins (login-rate-limit.guard.ts).
pub mod Service
pub mod Login
pub mod Guards
pub mod Access
pub mod LoginLimit
