-- ===== src/Ingest.antt =====
-- internal/ingest: validation, normalised hashes, delta decisions, and the processing of batches.
pub mod Validate
pub mod Delta
pub mod Hash
pub mod Decode
pub mod Parse
pub mod Processor
