-- ===== src/Legacy/Upsert.antt =====
-- internal/ingest/http_debug_upsert.go
pub mod Agrees
use conductor.Prelude.{ℕ, String, Option, none, some, List, [], ◌∷◌, Result, ok, err, if◌then◌else◌}
use conductor.Prelude.Equality.{◌==◌, string_instance}
use conductor.Domain.{ProductDisposition, rejected, unchanged, enqueued}
use conductor.Host.{Host}
use conductor.Ingest.Parse.{UnknownKeyWarning, ParseResult, parse_products_allow_unknown}
use conductor.Ingest.Processor.{ProductProcessResult, ProcessOutput, process_products}
use conductor.Api.Http.{Request, Response, Clock, Handler, bare, json_text}
use conductor.Api.Upsert.{Encoder, Intake, failed, is_push_triggered, run_status}
use conductor.Legacy.Stores.{MemoryHashStore, get_hash, set_hash}

abbrev pub set_result :
    ProductProcessResult → ProductDisposition → MemoryHashStore → MemoryHashStore
set_result pr enqueued s = set_hash pr.product_key pr.hash s
set_result pr unchanged s = set_hash pr.product_key pr.hash s
set_result pr rejected s = s

-- The loop that stores the hashes of the valid products.
unfoldable pub set_hashes : List ProductProcessResult → MemoryHashStore → MemoryHashStore
set_hashes [] s = s
set_hashes (pr ∷ products) s =
    set_hashes products (if pr.hash == "" then s else set_result pr pr.disposition s)

module _ (h : Host) (encoder : Encoder) (enabled_channels : List String) where
  -- The response of a run, whose status is computed from the summary.
  abbrev pub run_answer : String → UnknownKeyWarning → ProcessOutput → Response
  run_answer id warnings out = json_text 200 (
      encoder.run_response (record {
        run_id = id;
        status = run_status out.summary;
        push_triggered = is_push_triggered out.summary;
        warnings = warnings;
        result = out;
      }))

  abbrev pub answer_output :
      String
      → UnknownKeyWarning
      → Result ProcessOutput
      → MemoryHashStore
      → Response × MemoryHashStore
  answer_output id warnings (err m) s =
      (failed encoder 500 (("error", "processing_failed") ∷ ("message", m) ∷ []), s)
  answer_output id warnings (ok out) s = (run_answer id warnings out, set_hashes out.products s)

  abbrev pub answer_parsed :
      String → Result ParseResult → MemoryHashStore → Response × MemoryHashStore
  answer_parsed id (err m) s =
      (failed encoder 400 (("error", "invalid_json") ∷ ("message", m) ∷ []), s)
  answer_parsed id (ok parsed) s =
      answer_output id parsed.warnings
        (process_products h parsed.products enabled_channels (some (get_hash s))) s

  abbrev pub answer_body :
      Intake → Request → String → Option String → MemoryHashStore → Response × MemoryHashStore
  answer_body intake r id (some m) s =
      (failed encoder 400 (("error", "read_failed") ∷ ("message", m) ∷ []), s)
  answer_body intake r id none s =
      answer_parsed id (parse_products_allow_unknown intake.decoder r.body.bytes) s

  abbrev pub answer_id :
      Intake → Request → Result String → MemoryHashStore → Response × MemoryHashStore
  answer_id intake r (err m) s =
      (failed encoder 500 (("error", "run_id_failed") ∷ ("message", m) ∷ []), s)
  answer_id intake r (ok id) s = answer_body intake r id r.body.failure s

  unfoldable pub legacy_upsert_handler : Intake → Handler MemoryHashStore
  legacy_upsert_handler intake clock r s =
      if r.method == "POST" then answer_id intake r intake.new_run_id s else (bare 405, s)
