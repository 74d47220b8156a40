-- ===== src/Api/Bulk.antt =====
-- internal/api/handlers/debug_upsert_bulk.go, and of bufio.Scanner and compress/gzip what it uses.
pub mod Tally
pub mod Batch
pub mod Records
pub mod Cut
use Prim.Native.Char.{Char, code}
use conductor.Prelude.{
  ℕ, ◌+◌, String, concat, Bool, true, false, Option, none, some, List, [], ◌∷◌, ◌++◌, Result, ok,
  err, ltb, if◌then◌else◌,
}
use conductor.Prelude.Equality.{◌==◌, string_instance, nat_instance}
use conductor.Prelude.Text.{trim_space}
use conductor.Domain.{ProductDisposition, rejected}
use conductor.Host.{Host, lower}
use conductor.Ingest.Decode.{Decoder}
use conductor.Ingest.Parse.{
  UnknownKeyWarning, merge_keys, set_to_sorted_slice, parse_product_object_allow_unknown,
}
use conductor.Ingest.Processor.{
  ProductProcessResult, ProcessSummary, ProcessOutput, process_product, tally_result, reject,
}
use conductor.Domain.{Product}
use conductor.State.Store.{Store}
use conductor.Api.Context.{tenant_id}
use conductor.Api.Http.{Request, RequestBody, Response, Clock, Handler, bare, header}
use conductor.Api.Upsert.{Encoder, Intake, persist_hash, failed, store_run}

-- The handler's configuration.
pub record BulkUpsertHandler (S : Type 0) : Type 0 where
  pub store : Option (Store S)
  pub enabled_channels : List String

-- What `gzip.NewReader` makes of a body: an error about its header, or the text that it unpacks and
-- the error that ends it, if any.
pub record Gzip : Type 0 where
  pub new_reader : RequestBody → Result RequestBody

abbrev pub wrap_maybe_gzip : Host → Gzip → RequestBody → String → Result RequestBody
wrap_maybe_gzip h gz body content_encoding =
    let enc = lower h (trim_space content_encoding) in
    if enc == ""
    then ok body
    else if enc == "gzip"
    then gz.new_reader body
    else err (concat "unsupported Content-Encoding: " enc)

-- The bytes of a character in UTF-8.
abbrev char_bytes : Char → ℕ
char_bytes c =
    if ltb (code c) 0x80
    then 1
    else if ltb (code c) 0x800
    then 2
    else if ltb (code c) 0x10000
    then 3
    else 4

unfoldable pub byte_length : String → ℕ
byte_length String.[] = 0
byte_length (String.◌∷◌ c s) = char_bytes c + byte_length s

abbrev in_front : Char → List String → List String
in_front c [] = String.◌∷◌ c "" ∷ []
in_front c (line ∷ lines) = String.◌∷◌ c line ∷ lines

-- The lines of a text, without their ends. There is none behind the last end of a line.
unfoldable pub split_lines : String → List String
split_lines String.[] = []
split_lines (String.◌∷◌ c s) =
    let rest = split_lines s in if code c == 10 then "" ∷ rest else in_front c rest

abbrev drop_one : Char → String → String
drop_one c s = if code c == 13 then "" else String.◌∷◌ c s

-- A carriage return at the end of a line goes.
unfoldable pub drop_cr : String → String
drop_cr String.[] = ""
drop_cr (String.◌∷◌ c String.[]) = drop_one c ""
drop_cr (String.◌∷◌ c (String.◌∷◌ d s)) = String.◌∷◌ c (drop_cr (String.◌∷◌ d s))

-- The buffer of the scanner: a line that fills it is not found.
abbrev pub max_line : ℕ
max_line = 10485760

-- What the scanner finds in a body, and the error that ends it: a line that is too long, or that of
-- the reader, after the piece of a line before it.
unfoldable pub scan_lines : List String → Option String → List String × Option String
scan_lines [] failure = ([], failure)
scan_lines (line ∷ lines) failure =
    let rest = scan_lines lines failure in
    if ltb (byte_length line) max_line
    then (drop_cr line ∷ rest.0, rest.1)
    else ([], some "bufio.Scanner: token too long")

abbrev pub scan : RequestBody → List String × Option String
scan body = scan_lines (split_lines body.bytes) body.failure

-- The loop has taken its lines, with an output and the unknown keys, or it has answered with an error.
pub data BulkState : Type 0 where
  running : ProcessOutput → List String → BulkState
  stopped : List (String × String) → BulkState

abbrev pub count_received : ProcessOutput → ProcessOutput
count_received out = record out {
  summary = record out.summary { received = out.summary.received + 1 };
}

-- What a line that is no product is answered with.
abbrev pub invalid_line : String → ProductProcessResult
invalid_line message =
    reject "" "invalid_json_line"
      (record { path = "$"; code = "invalid_json"; message = message } ∷ [])

module _ (h : Host) (d : Decoder) {S : Type 0} (store : Store S) (enabled_channels : List String)
    (t : ℕ) where
  -- `UpsertProductHash` for the result of a valid product that has a hash.
  abbrev pub persist_result : ProductProcessResult → Bool → S → Result (Unit {0}) × S
  persist_result res valid s =
      if valid
      then (if res.hash == ""
          then (ok tt, s)
          else persist_hash store t res.product_key res.hash res.disposition s)
      else (ok tt, s)

  abbrev pub persisted :
      ProcessOutput → List String → String → Result (Unit {0}) × S → BulkState × S
  persisted out unknown key (ok _, s) = (running out unknown, s)
  persisted out unknown key (err m, s) = (
    stopped (("error", "persist_product_state_failed") ∷ ("message", m) ∷ ("product", key) ∷ []),
    s,
  )

  abbrev pub take_result :
      ProcessOutput → List String → Result (ProductProcessResult × Bool) → S → BulkState × S
  take_result out unknown (err m) s =
      (stopped (("error", "processing_failed") ∷ ("message", m) ∷ []), s)
  take_result out unknown (ok (res, valid)) s =
      persisted (tally_result out res valid) unknown res.product_key (persist_result res valid s)

  abbrev pub take_parsed :
      ProcessOutput → List String → Result (Product × List String) → S → BulkState × S
  take_parsed out unknown (err m) s = (running (tally_result out (invalid_line m) false) unknown, s)
  take_parsed out unknown (ok (prod, unk)) s =
      take_result out (merge_keys unk unknown)
        (process_product h prod enabled_channels (some (λ key. store.get_product_hash t key s))) s

  -- One turn of the loop.
  unfoldable pub take_line : String → ProcessOutput → List String → S → BulkState × S
  take_line text out unknown s =
      let line = trim_space text in
      if line == ""
      then (running out unknown, s)
      else take_parsed (count_received out) unknown (parse_product_object_allow_unknown d line) s

  unfoldable pub bulk_loop : List String → BulkState × S → BulkState × S
  bulk_loop [] q = q
  bulk_loop (line ∷ lines) (running out unknown, s) = bulk_loop lines (take_line line out unknown s)
  bulk_loop (line ∷ lines) (stopped members, s) = (stopped members, s)

abbrev pub no_output : ProcessOutput
no_output = record {
  summary = record { received = 0; valid = 0; rejected = 0; unchanged = 0; enqueued = 0 };
  products = [];
}

module _ (h : Host) (encoder : Encoder) (gz : Gzip) {S : Type 0} where
  -- What follows the loop.
  abbrev pub finish : Store S → Clock → String → ℕ → Option String → BulkState × S → Response × S
  finish store clock id t failure (stopped members, s) = (failed encoder 500 members, s)
  finish store clock id t (some m) (running out unknown, s) =
      (failed encoder 400 (("error", "read_failed") ∷ ("message", m) ∷ []), s)
  finish store clock id t none (running out unknown, s) =
      store_run h encoder store clock id t (record { unknown_keys = set_to_sorted_slice unknown })
        out (none, s)

  abbrev pub read_lines :
      Decoder
      → Store S
      → List String
      → Clock
      → Request
      → String
      → Result RequestBody
      → S
      → Response × S
  read_lines d store channels clock r id (err m) s =
      (failed encoder 400 (("error", "invalid_encoding") ∷ ("message", m) ∷ []), s)
  read_lines d store channels clock r id (ok reader) s =
      let (lines, failure) = scan reader in
      finish store clock id (tenant_id r.context) failure
        (bulk_loop h d store channels (tenant_id r.context) lines (running no_output [], s))

  abbrev pub draw_run_id :
      Decoder → Store S → List String → Clock → Request → Result String → S → Response × S
  draw_run_id d store channels clock r (err m) s =
      (failed encoder 500 (("error", "run_id_failed") ∷ ("message", m) ∷ []), s)
  draw_run_id d store channels clock r (ok id) s =
      read_lines d store channels clock r id
        (wrap_maybe_gzip h gz r.body (header "Content-Encoding" r)) s

  abbrev pub check_store : Intake → Option (Store S) → List String → Handler S
  check_store intake none channels clock r s = (
    failed encoder 500
        (("error", "misconfigured") ∷ ("message", "handler dependencies not configured") ∷ []),
    s,
  )
  check_store intake (some store) channels clock r s =
      draw_run_id intake.decoder store channels clock r intake.new_run_id s

  unfoldable pub bulk_upsert_handler : Intake → BulkUpsertHandler S → Handler S
  bulk_upsert_handler intake handler clock r s =
      if r.method == "POST"
      then check_store intake handler.store handler.enabled_channels clock r s
      else (bare 405, s)
