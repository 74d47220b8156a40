-- ===== src/State/Store.antt =====
-- internal/state/state.go: the interface `Store`. A method takes the store's state, and gives back
-- its result and the state that it leaves; a method that only reads gives back its result alone.
-- `time.Now()` is an argument where a method reads the clock.
use conductor.Prelude.{ℕ, ℤ, String, Option, List, Result}
use conductor.Ingest.Processor.{ProductProcessResult}
use conductor.State.Records.{RunRecord, RunClaim, IdempotencyRecord}

pub record Store (S : Type 0) : Type 0 where
  pub get_product_hash : ℕ → String → S → Result (Option String)
  pub upsert_product_hash : ℕ → String → String → S → Result (Unit {0}) × S
  pub insert_run : RunRecord → S → Result (Unit {0}) × S
  pub insert_run_products : String → List ProductProcessResult → S → Result (Unit {0}) × S
  pub get_idempotency : ℕ → ℕ → String → String → S → Result (Option IdempotencyRecord)
  pub put_idempotency : ℕ → String → String → IdempotencyRecord → S → Result (Unit {0}) × S
  pub list_runs : ℕ → ℤ → S → Result (List RunRecord)
  pub get_run : ℕ → String → S → Result (Option RunRecord)
  pub list_run_products : String → ℤ → S → Result (List ProductProcessResult)
  pub claim_runs : ℤ → S → Result (List RunClaim) × S
  pub complete_run : ℕ → String → S → Result (Unit {0}) × S
  pub fail_run : ℕ → String → String → S → Result (Unit {0}) × S
