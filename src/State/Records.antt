-- ===== src/State/Records.antt =====
-- internal/state/state.go: the records that a store keeps.
use conductor.Prelude.{ℕ, String, Bool, Option}
use conductor.Ingest.Parse.{UnknownKeyWarning}

-- `FeedID` is a pointer that may be nil; times are nanoseconds.
pub record RunRecord : Type 0 where
  pub run_id : String
  pub tenant_id : ℕ
  pub feed_id : Option ℕ
  pub status : String
  pub push_triggered : Bool
  pub received : ℕ
  pub valid : ℕ
  pub rejected : ℕ
  pub unchanged : ℕ
  pub enqueued : ℕ
  pub warnings : UnknownKeyWarning
  pub created_at : ℕ

pub record RunClaim : Type 0 where
  pub run_id : String
  pub tenant_id : ℕ

pub record IdempotencyRecord : Type 0 where
  pub status_code : ℕ
  pub body_json : String
  pub expires_at : ℕ
  pub created_at : ℕ
