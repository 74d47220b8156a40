-- ===== src/Api.antt =====
-- internal/api: the request context, authentication, middleware and handlers.
pub mod Context
pub mod Http
pub mod Auth
pub mod Middleware
pub mod Upsert
pub mod Bulk
pub mod Runs
pub mod Server
