-- ===== src/Api/Upsert.antt =====
-- internal/api/handlers/debug_upsert.go
pub mod Records
pub mod Again
use conductor.Prelude.{
  ℕ, String, Bool, true, false, not, ◌&&◌, Option, none, some, List, [], ◌∷◌, Result, ok, err, ltb,
  if◌then◌else◌,
}
use conductor.Prelude.Equality.{◌==◌, string_instance, nat_instance}
use conductor.Domain.{
  ProductDisposition, rejected, unchanged, enqueued, RunStatus, completed, no_change_detected,
  has_changes, status_text,
}
use conductor.Host.{Host}
use conductor.Ingest.Decode.{Decoder}
use conductor.Ingest.Parse.{UnknownKeyWarning, ParseResult, parse_products_allow_unknown}
use conductor.Ingest.Processor.{
  ProductProcessResult, ProcessSummary, ProcessOutput, process_products,
}
use conductor.State.Records.{RunRecord}
use conductor.State.Store.{Store}
use conductor.Api.Context.{tenant_id}
use conductor.Api.Http.{Request, Response, Clock, Handler, bare, json_text}

pub record RunResponse : Type 0 where
  pub run_id : String
  pub status : RunStatus
  pub push_triggered : Bool
  pub warnings : UnknownKeyWarning
  pub result : ProcessOutput

-- The encoder of the responses: an error's members, and a run.
pub record Encoder : Type 0 where
  pub failure : List (String × String) → String
  pub run_response : RunResponse → String

-- What one request draws on: `NewRunID`, whose random bytes may fail, and the decoder of the body.
pub record Intake : Type 0 where
  pub new_run_id : Result String
  pub decoder : Decoder

-- The handler's configuration.
pub record UpsertHandler (S : Type 0) : Type 0 where
  pub store : Option (Store S)
  pub enabled_channels : List String

abbrev pub is_push_triggered : ProcessSummary → Bool
is_push_triggered summary = ltb 0 summary.enqueued

abbrev pub run_status : ProcessSummary → RunStatus
run_status summary =
    if not (is_push_triggered summary) && summary.rejected == 0
    then no_change_detected
    else if is_push_triggered summary
    then has_changes
    else completed

abbrev pub run_record : Clock → String → ℕ → UnknownKeyWarning → ProcessSummary → RunRecord
run_record clock run_id tenant_id warnings summary = record {
  run_id = run_id;
  tenant_id = tenant_id;
  feed_id = none;
  status = status_text (run_status summary);
  push_triggered = is_push_triggered summary;
  received = summary.received;
  valid = summary.valid;
  rejected = summary.rejected;
  unchanged = summary.unchanged;
  enqueued = summary.enqueued;
  warnings = warnings;
  created_at = clock.created;
}

module _ {S : Type 0} (store : Store S) where
  -- One turn of the loop that stores the hashes.
  abbrev pub persist_hash : ℕ → String → String → ProductDisposition → S → Result (Unit {0}) × S
  persist_hash t key hash rejected s = (ok tt, s)
  persist_hash t key hash unchanged s = store.upsert_product_hash t key hash s
  persist_hash t key hash enqueued s = store.upsert_product_hash t key hash s

  -- The loop: the key and the message of the first failure, if there is one.
  unfoldable pub persist_hashes : ℕ → List ProductProcessResult → S → Option (String × String) × S
  persist_hashes t [] s = (none, s)
  persist_hashes t (pr ∷ products) s =
      let (verdict, s') =
        if pr.hash == ""
        then (ok tt, s)
        else persist_hash t pr.product_key pr.hash pr.disposition s in
      let rest = persist_hashes t products s' in
      elim verdict [ ok _ ↦ rest | err m ↦ (some (pr.product_key, m), s') ]

module _ (encoder : Encoder) where
  abbrev pub failed : ℕ → List (String × String) → Response
  failed status members = json_text status (encoder.failure members)

module _ (h : Host) (encoder : Encoder) {S : Type 0} where
  -- `InsertRunProducts` and the response.
  abbrev store_products :
      Store S → RunRecord → UnknownKeyWarning → ProcessOutput → Result (Unit {0}) × S → Response × S
  store_products store run warnings out (err m, s) = (
    failed encoder 500
        (("error", "persist_run_failed") ∷ ("message", m) ∷ ("run_id", run.run_id) ∷ []),
    s,
  )
  store_products store run warnings out (ok _, s) =
      let (verdict, s') = store.insert_run_products run.run_id out.products s in
      elim verdict [
        | err m ↦ (
          failed encoder 500 (
              ("error", "persist_run_products_failed")
              ∷ ("message", m)
              ∷ ("run_id", run.run_id)
              ∷ []),
          s',
        )
        | ok _ ↦ (
          json_text 200 (
              encoder.run_response (record {
                run_id = run.run_id;
                status = run_status out.summary;
                push_triggered = run.push_triggered;
                warnings = warnings;
                result = out;
              })),
          s',
        )
      ]

  -- `InsertRun`, once the hashes are stored.
  abbrev pub store_run :
      Store S
      → Clock
      → String
      → ℕ
      → UnknownKeyWarning
      → ProcessOutput
      → Option (String × String) × S
      → Response × S
  store_run store clock id t warnings out (some (key, m), s) = (
    failed encoder 500
        (("error", "persist_product_state_failed") ∷ ("message", m) ∷ ("product", key) ∷ []),
    s,
  )
  store_run store clock id t warnings out (none, s) =
      let run = run_record clock id t warnings out.summary in
      store_products store run warnings out (store.insert_run run s)

  abbrev pub store_output :
      Store S → Clock → String → ℕ → UnknownKeyWarning → Result ProcessOutput → S → Response × S
  store_output store clock id t warnings (err m) s =
      (failed encoder 500 (("error", "processing_failed") ∷ ("message", m) ∷ []), s)
  store_output store clock id t warnings (ok out) s =
      store_run store clock id t warnings out (persist_hashes store t out.products s)

  abbrev pub process_parsed :
      Store S → List String → Clock → String → ℕ → Result ParseResult → S → Response × S
  process_parsed store channels clock id t (err m) s =
      (failed encoder 400 (("error", "invalid_json") ∷ ("message", m) ∷ []), s)
  process_parsed store channels clock id t (ok parsed) s =
      store_output store clock id t parsed.warnings
        (process_products h parsed.products channels (some (λ key. store.get_product_hash t key s)))
        s

  abbrev pub read_body :
      Intake → Store S → List String → Clock → Request → String → Option String → S → Response × S
  read_body intake store channels clock r id (some m) s =
      (failed encoder 400 (("error", "read_failed") ∷ ("message", m) ∷ []), s)
  read_body intake store channels clock r id none s =
      process_parsed store channels clock id (tenant_id r.context)
        (parse_products_allow_unknown intake.decoder r.body.bytes) s

  abbrev pub draw_run_id :
      Intake → Store S → List String → Clock → Request → Result String → S → Response × S
  draw_run_id intake store channels clock r (err m) s =
      (failed encoder 500 (("error", "run_id_failed") ∷ ("message", m) ∷ []), s)
  draw_run_id intake store channels clock r (ok id) s =
      read_body intake store channels clock r id r.body.failure s

  abbrev check_store : Intake → Option (Store S) → List String → Handler S
  check_store intake none channels clock r s = (
    failed encoder 500
        (("error", "misconfigured") ∷ ("message", "handler dependencies not configured") ∷ []),
    s,
  )
  check_store intake (some store) channels clock r s =
      draw_run_id intake store channels clock r intake.new_run_id s

  unfoldable pub upsert_handler : Intake → UpsertHandler S → Handler S
  upsert_handler intake handler clock r s =
      if r.method == "POST"
      then check_store intake handler.store handler.enabled_channels clock r s
      else (bare 405, s)
