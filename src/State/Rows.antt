-- ===== src/State/Rows.antt =====
-- internal/state/mysql_store.go: the columns of the tables, and what the loops over rows make of them.
use conductor.Prelude.{
  ℕ, String, Option, none, some, List, [], ◌∷◌, Result, ok, err, ◌>>=◌, if◌then◌else◌, ltb,
}
use conductor.Prelude.Equality.{◌==◌, nat_instance, string_instance}
use conductor.Domain.{ProductDisposition, rejected, unchanged, enqueued}
use conductor.Ingest.Validate.{ValidationIssue}
use conductor.Ingest.Parse.{UnknownKeyWarning}
use conductor.Ingest.Processor.{ProductProcessResult}
use conductor.State.Records.{RunRecord, RunClaim, IdempotencyRecord}
use conductor.Sql.{
  SqlValue, null, num, text, flag, moment, Row, Database, wrong_columns, nullable_uint,
  nullable_text,
}

-- What `encoding/json` makes of the two columns of JSON, there and back. An error on the way back is
-- ignored: the value is what has been decoded up to it.
pub record Codec : Type 0 where
  pub marshal_warnings : UnknownKeyWarning → Result String
  pub unmarshal_warnings : String → UnknownKeyWarning
  pub marshal_issues : List ValidationIssue → Result String
  pub unmarshal_issues : String → List ValidationIssue

abbrev pub disposition_text : ProductDisposition → String
disposition_text rejected = "rejected"
disposition_text unchanged = "unchanged"
disposition_text enqueued = "enqueued"

-- A column of a text that is no disposition, which the store never writes, fails the scan.
abbrev pub disposition_of : String → Result ProductDisposition
disposition_of v =
    if v == "rejected"
    then ok rejected
    else if v == "unchanged"
    then ok unchanged
    else if v == "enqueued"
    then ok enqueued
    else err "unknown disposition"

abbrev pub uint_value : Option ℕ → SqlValue
uint_value none = null
uint_value (some n) = num n

-- The arguments of the statement that inserts a run.
abbrev pub run_values : RunRecord → String → List SqlValue
run_values run warnings_json =
    text run.run_id
    ∷ num run.tenant_id
    ∷ uint_value run.feed_id
    ∷ text run.status
    ∷ flag run.push_triggered
    ∷ num run.received
    ∷ num run.valid
    ∷ num run.rejected
    ∷ num run.unchanged
    ∷ num run.enqueued
    ∷ text warnings_json
    ∷ moment run.created_at
    ∷ []

module _ (c : Codec) {S T : Type 0} (db : Database S T) where
  -- `if len(warningsBytes) > 0 { _ = json.Unmarshal(…) }`
  abbrev pub warnings_of : String → UnknownKeyWarning
  warnings_of v = if v == "" then record { unknown_keys = [] } else c.unmarshal_warnings v

  abbrev pub issues_of : String → List ValidationIssue
  issues_of v = if v == "" then [] else c.unmarshal_issues v

  unfoldable pub scan_run : Row → Result RunRecord
  scan_run (id ∷ t ∷ feed ∷ status ∷ push ∷ v₁ ∷ v₂ ∷ v₃ ∷ v₄ ∷ v₅ ∷ warnings ∷ created ∷ []) = do
    run_id ← db.to_text id
    tenant_id ← db.to_uint t
    feed_id ← nullable_uint db feed
    status_text ← db.to_text status
    push_number ← db.to_uint push
    received_count ← db.to_uint v₁
    valid_count ← db.to_uint v₂
    rejected_count ← db.to_uint v₃
    unchanged_count ← db.to_uint v₄
    enqueued_count ← db.to_uint v₅
    warnings_json ← nullable_text db warnings
    created_at ← db.to_time created
    ok (record {
      run_id = run_id;
      tenant_id = tenant_id;
      feed_id = feed_id;
      status = status_text;
      push_triggered = push_number == 1;
      received = received_count;
      valid = valid_count;
      rejected = rejected_count;
      unchanged = unchanged_count;
      enqueued = enqueued_count;
      warnings = warnings_of warnings_json;
      created_at = created_at;
    })
  scan_run row = err wrong_columns

  unfoldable pub scan_product : Row → Result ProductProcessResult
  scan_product (key ∷ disposition ∷ reason ∷ hash ∷ issues ∷ []) = do
    product_key ← db.to_text key
    disposition_column ← db.to_text disposition
    decided ← disposition_of disposition_column
    reason_text ← nullable_text db reason
    hash_text ← nullable_text db hash
    issues_json ← nullable_text db issues
    ok (record {
      product_key = product_key;
      hash = hash_text;
      disposition = decided;
      reason = reason_text;
      issues = issues_of issues_json;
    })
  scan_product row = err wrong_columns

  abbrev pub scan_claim : Row → Result RunClaim
  scan_claim (id ∷ t ∷ []) = do
    run_id ← db.to_text id
    tenant_id ← db.to_uint t
    ok (record { run_id = run_id; tenant_id = tenant_id })
  scan_claim row = err wrong_columns

  abbrev pub scan_record : Row → Result IdempotencyRecord
  scan_record (status ∷ body ∷ created ∷ expires ∷ []) = do
    status_code ← db.to_uint status
    body_json ← nullable_text db body
    created_at ← db.to_time created
    expires_at ← db.to_time expires
    ok (record {
      status_code = status_code;
      body_json = body_json;
      expires_at = expires_at;
      created_at = created_at;
    })
  scan_record row = err wrong_columns

-- The loop over the rows: the first row that cannot be scanned ends it, and so does the error behind
-- the rows.
unfoldable pub scan_rows {ℓ} :
    {A : Type ℓ} → (Row → Result A) → List Row → Option String → Result (List A)
scan_rows scan [] none = ok []
scan_rows scan [] (some m) = err m
scan_rows scan (row ∷ rows) failure =
    let rest = scan_rows scan rows failure in do a ← scan row; as_list ← rest; ok (a ∷ as_list)

-- `if limit <= 0 { limit = fallback }; if limit > most { limit = most }`
abbrev pub at_most : ℕ → ℕ → ℕ
at_most most n = if ltb most n then most else n
