-- ===== src/Api/Middleware.antt =====
-- internal/api/middleware, and the order in which cmd/api wraps the handlers.
pub mod Tenant
pub mod Auth
pub mod Idempotency
pub mod Chain
pub mod Replay
pub mod Gate
