-- ===== src/Api.antt =====
-- The HTTP layer of the ask endpoint and the rate limiter (backend/app/api, backend/app/core).
pub mod Request
pub mod Turn
pub mod Transport
pub mod Locks
pub mod RateLimit
