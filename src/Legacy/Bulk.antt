-- ===== src/Legacy/Bulk.antt =====
-- internal/ingest/http_debug_upsert_bulk.go. The scanner, its limit and the closing of the readers are
-- those of Api.Bulk.
pub mod Kept
pub mod Agrees
use conductor.Prelude.{
  String, Bool, false, Option, none, some, List, [], ◌∷◌, Result, ok, err, if◌then◌else◌,
}
use conductor.Prelude.Equality.{◌==◌, string_instance}
use conductor.Prelude.Text.{trim_space}
use conductor.Domain.{Product, ProductDisposition, rejected, unchanged, enqueued}
use conductor.Host.{Host, lower}
use conductor.Ingest.Decode.{Decoder}
use conductor.Ingest.Parse.{merge_keys, set_to_sorted_slice, parse_product_object_allow_unknown}
use conductor.Ingest.Processor.{ProductProcessResult, ProcessOutput, process_product, tally_result}
use conductor.Api.Http.{Request, RequestBody, Response, Handler, bare, header}
use conductor.Api.Upsert.{Encoder, Intake, failed}
use conductor.Api.Bulk.{
  BulkState, running, stopped, Gzip, scan, count_received, invalid_line, no_output,
}
use conductor.Legacy.Stores.{MemoryHashStore, get_hash, set_hash}
use conductor.Legacy.Upsert.{run_answer}

abbrev pub legacy_wrap_maybe_gzip : Host → Gzip → RequestBody → String → Result RequestBody
legacy_wrap_maybe_gzip h gz body content_encoding =
    let enc = lower h (trim_space content_encoding) in
    if enc == ""
    then ok body
    else if enc == "gzip"
    then gz.new_reader body
    else err "unexpected EOF"

-- The hash of an enqueued product is stored, unless it is empty.
abbrev pub set_enqueued :
    ProductProcessResult → ProductDisposition → MemoryHashStore → MemoryHashStore
set_enqueued res enqueued s = if res.hash == "" then s else set_hash res.product_key res.hash s
set_enqueued res unchanged s = s
set_enqueued res rejected s = s

module _ (h : Host) (d : Decoder) (enabled_channels : List String) where
  abbrev pub process_parsed_line :
      ProcessOutput
      → List String
      → Result (ProductProcessResult × Bool)
      → MemoryHashStore
      → BulkState × MemoryHashStore
  process_parsed_line out unknown (err m) s =
      (stopped (("error", "processing_failed") ∷ ("message", m) ∷ []), s)
  process_parsed_line out unknown (ok (res, valid)) s = (
    running (tally_result out res valid) unknown,
    if valid then set_enqueued res res.disposition s else s,
  )

  abbrev pub process_line :
      ProcessOutput
      → List String
      → Result (Product × List String)
      → MemoryHashStore
      → BulkState × MemoryHashStore
  process_line out unknown (err m) s =
      (running (tally_result out (invalid_line m) false) unknown, s)
  process_line out unknown (ok (prod, unk)) s =
      process_parsed_line out (merge_keys unk unknown)
        (process_product h prod enabled_channels (some (get_hash s))) s

  -- One turn of the loop.
  unfoldable pub legacy_take_line :
      String → ProcessOutput → List String → MemoryHashStore → BulkState × MemoryHashStore
  legacy_take_line text out unknown s =
      let line = trim_space text in
      if line == ""
      then (running out unknown, s)
      else process_line (count_received out) unknown (parse_product_object_allow_unknown d line) s

  unfoldable pub legacy_bulk_loop :
      List String → BulkState × MemoryHashStore → BulkState × MemoryHashStore
  legacy_bulk_loop [] q = q
  legacy_bulk_loop (line ∷ lines) (running out unknown, s) =
      legacy_bulk_loop lines (legacy_take_line line out unknown s)
  legacy_bulk_loop (line ∷ lines) (stopped members, s) = (stopped members, s)

module _ (h : Host) (encoder : Encoder) (gz : Gzip) (enabled_channels : List String) where
  -- What follows the loop.
  abbrev pub answer_run :
      String → Option String → BulkState × MemoryHashStore → Response × MemoryHashStore
  answer_run id failure (stopped members, s) = (failed encoder 500 members, s)
  answer_run id (some m) (running out unknown, s) =
      (failed encoder 400 (("error", "read_failed") ∷ ("message", m) ∷ []), s)
  answer_run id none (running out unknown, s) = (
    run_answer h encoder enabled_channels id (record { unknown_keys = set_to_sorted_slice unknown })
        out,
    s,
  )

  abbrev pub answer_lines :
      Decoder → String → Result RequestBody → MemoryHashStore → Response × MemoryHashStore
  answer_lines d id (err m) s =
      (failed encoder 400 (("error", "invalid_encoding") ∷ ("message", m) ∷ []), s)
  answer_lines d id (ok reader) s =
      let (lines, failure) = scan reader in
      answer_run id failure (legacy_bulk_loop h d enabled_channels lines (running no_output [], s))

  abbrev pub answer_drawn :
      Decoder → Request → Result String → MemoryHashStore → Response × MemoryHashStore
  answer_drawn d r (err m) s =
      (failed encoder 500 (("error", "run_id_failed") ∷ ("message", m) ∷ []), s)
  answer_drawn d r (ok id) s =
      answer_lines d id (legacy_wrap_maybe_gzip h gz r.body (header "Content-Encoding" r)) s

  unfoldable pub legacy_bulk_upsert_handler : Intake → Handler MemoryHashStore
  legacy_bulk_upsert_handler intake clock r s =
      if r.method == "POST"
      then answer_drawn intake.decoder r intake.new_run_id s
      else (bare 405, s)
