-- ===== src/State/Mysql.antt =====
-- internal/state/mysql_store.go and mysql_runs_queue.go: the statements, with the loops and the errors
-- around them. What a statement does is up to the database, which is a parameter.
pub mod Runs
pub mod Queue
pub mod Claims
pub mod Products
use conductor.Prelude.{
  ℕ, ℤ, positive_or, String, Option, none, some, List, [], ◌∷◌, Result, ok, err, ◌>>=◌,
  if◌then◌else◌, ltb,
}
use conductor.Ingest.Processor.{ProductProcessResult}
use conductor.State.Records.{RunRecord, RunClaim, IdempotencyRecord}
use conductor.State.Rows.{
  Codec, disposition_text, run_values, scan_run, scan_product, scan_claim, scan_record, scan_rows,
  at_most,
}
use conductor.State.Store.{Store}
use conductor.Sql.{SqlValue, num, text, moment, Row, Rows, Database, query_row, scan_one}

abbrev pub select_hash : String
select_hash = "SELECT normalized_hash FROM product_state WHERE tenant_id = ? AND product_key = ?"

abbrev pub upsert_hash : String
upsert_hash =
    "INSERT INTO product_state (tenant_id, product_key, normalized_hash)\n\t\t VALUES (?, ?, ?)\n\t\t ON DUPLICATE KEY UPDATE normalized_hash = VALUES(normalized_hash)"

abbrev pub insert_into_runs : String
insert_into_runs =
    "INSERT INTO runs (\n\t\t\trun_id, tenant_id, feed_id, status, push_triggered,\n\t\t\treceived, valid, rejected, unchanged, enqueued,\n\t\t\twarnings_json, created_at\n\t\t) VALUES (?, ?, ?, ?, ?, ?, ?, ?, ?, ?, ?, ?)"

abbrev pub insert_into_products : String
insert_into_products =
    "INSERT INTO run_products (run_id, product_key, disposition, reason, normalized_hash, issues_json)\n\t\t\t VALUES (?, ?, ?, ?, ?, ?)"

abbrev pub select_response : String
select_response =
    "SELECT status_code, response_body_json, created_at, expires_at\n\t\t FROM idempotency\n\t\t WHERE tenant_id = ? AND endpoint = ? AND idem_key_hash = ?"

abbrev pub upsert_response : String
upsert_response =
    "INSERT INTO idempotency (tenant_id, endpoint, idem_key_hash, status_code, response_body_json, created_at, expires_at)\n\t\t VALUES (?, ?, ?, ?, ?, ?, ?)\n\t\t ON DUPLICATE KEY UPDATE\n\t\t   status_code = VALUES(status_code),\n\t\t   response_body_json = VALUES(response_body_json),\n\t\t   created_at = VALUES(created_at),\n\t\t   expires_at = VALUES(expires_at)"

abbrev pub select_runs : String
select_runs =
    "\nSELECT run_id, tenant_id, feed_id, status, push_triggered,\n       received, valid, rejected, unchanged, enqueued,\n       warnings_json, created_at\nFROM runs\nWHERE tenant_id = ?\nORDER BY created_at DESC\nLIMIT ?"

abbrev pub select_run : String
select_run =
    "\nSELECT run_id, tenant_id, feed_id, status, push_triggered,\n       received, valid, rejected, unchanged, enqueued,\n       warnings_json, created_at\nFROM runs\nWHERE tenant_id = ? AND run_id = ?"

abbrev pub select_products : String
select_products =
    "\nSELECT product_key, disposition, reason, normalized_hash, issues_json\nFROM run_products\nWHERE run_id = ?\nORDER BY product_key ASC\nLIMIT ?"

abbrev pub select_claims : String
select_claims =
    "\nSELECT run_id, tenant_id\nFROM runs\nWHERE status = 'has_changes' AND push_triggered = 1\nORDER BY created_at ASC\nLIMIT ?\nFOR UPDATE\n"

abbrev pub update_claimed : String
update_claimed =
    "\nUPDATE runs\nSET status = 'processing'\nWHERE run_id = ? AND tenant_id = ? AND status = 'has_changes'\n"

abbrev pub update_completed : String
update_completed = "\nUPDATE runs\nSET status = 'completed'\nWHERE run_id = ? AND tenant_id = ?\n"

abbrev pub update_failed : String
update_failed = "\nUPDATE runs\nSET status = 'failed'\nWHERE run_id = ? AND tenant_id = ?\n"

-- The row of `QueryRowContext`, scanned: `sql.ErrNoRows` is no error.
abbrev pub scan_optional {ℓ} : {A : Type ℓ} → (Row → Result A) → Option Row → Result (Option A)
scan_optional scan none = ok none
scan_optional scan (some row) = do a ← scan row; ok (some a)

abbrev pub scan_all {ℓ} : {A : Type ℓ} → (Row → Result A) → Rows → Result (List A)
scan_all scan (rows, failure) = scan_rows scan rows failure

abbrev pub unexpired_response : ℕ → Option IdempotencyRecord → Option IdempotencyRecord
unexpired_response now none = none
unexpired_response now (some rec) = if ltb rec.expires_at now then none else some rec

module _ (c : Codec) {S T : Type 0} (db : Database S T) where
  unfoldable pub mysql_get_product_hash : ℕ → String → S → Result (Option String)
  mysql_get_product_hash t key s = do
    row ← query_row db select_hash (num t ∷ text key ∷ []) s
    scan_optional (scan_one db) row

  abbrev pub exec_encoded :
      String → (String → List SqlValue) → Result String → S → Result (Unit {0}) × S
  exec_encoded statement args (err m) s = (err m, s)
  exec_encoded statement args (ok encoded) s = db.exec statement (args encoded) s

  unfoldable pub mysql_insert_run : RunRecord → S → Result (Unit {0}) × S
  mysql_insert_run run s =
      exec_encoded insert_into_runs (run_values run) (c.marshal_warnings run.warnings) s

  abbrev pub product_values : String → ProductProcessResult → String → List SqlValue
  product_values run_id p issues =
      text run_id
      ∷ text p.product_key
      ∷ text (disposition_text p.disposition)
      ∷ text p.reason
      ∷ text p.hash
      ∷ text issues
      ∷ []

  unfoldable pub insert_product : String → ProductProcessResult → S → Result (Unit {0}) × S
  insert_product run_id p s =
      exec_encoded insert_into_products (product_values run_id p) (c.marshal_issues p.issues) s

  -- Row by row: the first error ends the loop, and the rows before it stay.
  unfoldable pub mysql_insert_run_products :
      String → List ProductProcessResult → S → Result (Unit {0}) × S
  mysql_insert_run_products run_id [] s = (ok tt, s)
  mysql_insert_run_products run_id (p ∷ ps) s =
      let q = insert_product run_id p s in
      let rest = mysql_insert_run_products run_id ps q.1 in
      elim q.0 [ err m ↦ (err m, q.1) | ok _ ↦ rest ]

  unfoldable pub mysql_get_idempotency :
      ℕ → ℕ → String → String → S → Result (Option IdempotencyRecord)
  mysql_get_idempotency now t endpoint key_hash s = do
    row ← query_row db select_response (num t ∷ text endpoint ∷ text key_hash ∷ []) s
    rec ← scan_optional (scan_record c db) row
    ok (unexpired_response now rec)

  unfoldable pub mysql_put_idempotency :
      ℕ → String → String → IdempotencyRecord → S → Result (Unit {0}) × S
  mysql_put_idempotency t endpoint key_hash rec s =
      db.exec upsert_response
        (num t
          ∷ text endpoint
          ∷ text key_hash
          ∷ num rec.status_code
          ∷ text rec.body_json
          ∷ moment rec.created_at
          ∷ moment rec.expires_at
          ∷ [])
        s

  unfoldable pub mysql_list_runs : ℕ → ℤ → S → Result (List RunRecord)
  mysql_list_runs t limit s = do
    rows ← db.query select_runs (num t ∷ num (at_most 200 (positive_or 50 limit)) ∷ []) s
    scan_all (scan_run c db) rows

  unfoldable pub mysql_get_run : ℕ → String → S → Result (Option RunRecord)
  mysql_get_run t run_id s = do
    row ← query_row db select_run (num t ∷ text run_id ∷ []) s
    scan_optional (scan_run c db) row

  unfoldable pub mysql_list_run_products : String → ℤ → S → Result (List ProductProcessResult)
  mysql_list_run_products run_id limit s = do
    rows ←
        db.query select_products (text run_id ∷ num (at_most 2000 (positive_or 200 limit)) ∷ []) s
    scan_all (scan_product c db) rows

  -- The loop that marks the claims: the first error, if any.
  unfoldable pub mark_claims : List RunClaim → T → Option String × T
  mark_claims [] tx = (none, tx)
  mark_claims (claim ∷ claims) tx =
      let q = db.tx_exec update_claimed (text claim.run_id ∷ num claim.tenant_id ∷ []) tx in
      let rest = mark_claims claims q.1 in elim q.0 [ err m ↦ (some m, q.1) | ok _ ↦ rest ]

  -- The deferred rollback runs after the commit too.
  abbrev pub committed : List RunClaim → T → Result (Unit {0}) × S → Result (List RunClaim) × S
  committed claims tx (err m, s) = (err m, db.rollback tx s)
  committed claims tx (ok _, s) = (ok claims, db.rollback tx s)

  abbrev pub marked : List RunClaim → S → Option String × T → Result (List RunClaim) × S
  marked claims s (some m, tx) = (err m, db.rollback tx s)
  marked claims s (none, tx) = committed claims tx (db.commit tx s)

  abbrev pub scanned : T → Result (List RunClaim) → S → Result (List RunClaim) × S
  scanned tx (err m) s = (err m, db.rollback tx s)
  scanned tx (ok claims) s = marked claims s (mark_claims claims tx)

  abbrev pub begun : ℕ → Result T → S → Result (List RunClaim) × S
  begun n (err m) s = (err m, s)
  begun n (ok tx) s =
      scanned tx
        (do rows ← db.tx_query select_claims (num n ∷ []) tx; scan_all (scan_claim c db) rows) s

  unfoldable pub mysql_claim_runs : ℤ → S → Result (List RunClaim) × S
  mysql_claim_runs limit s = begun (positive_or 10 limit) (db.begin_tx s) s

  unfoldable pub mysql_complete_run : ℕ → String → S → Result (Unit {0}) × S
  mysql_complete_run t run_id s = db.exec update_completed (text run_id ∷ num t ∷ []) s

  unfoldable pub mysql_fail_run : ℕ → String → String → S → Result (Unit {0}) × S
  mysql_fail_run t run_id message s = db.exec update_failed (text run_id ∷ num t ∷ []) s

  unfoldable pub mysql_store : Store S
  mysql_store = record {
    get_product_hash = mysql_get_product_hash;
    upsert_product_hash = λ t key hash s. db.exec upsert_hash (num t ∷ text key ∷ text hash ∷ []) s;
    insert_run = mysql_insert_run;
    insert_run_products = mysql_insert_run_products;
    get_idempotency = mysql_get_idempotency;
    put_idempotency = mysql_put_idempotency;
    list_runs = mysql_list_runs;
    get_run = mysql_get_run;
    list_run_products = mysql_list_run_products;
    claim_runs = mysql_claim_runs;
    complete_run = mysql_complete_run;
    fail_run = mysql_fail_run;
  }
