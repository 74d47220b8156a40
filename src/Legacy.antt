-- ===== src/Legacy.antt =====
-- The older handlers of internal/ingest, with their stores: http_debug_upsert.go,
-- http_debug_upsert_bulk.go, idempotency_http.go, idempotency_store.go and memory_store.go.
pub mod Stores
pub mod Upsert
pub mod Bulk
pub mod Idempotency
