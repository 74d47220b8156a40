-- ===== src/Api/Middleware/Idempotency.antt =====
-- internal/api/middleware/idempotency.go
use conductor.Prelude.{
  ℕ, ◌+◌, String, Bool, ◌||◌, Option, none, some, Result, ok, err, if◌then◌else◌,
}
use conductor.Prelude.Equality.{◌==◌, string_instance, nat_instance}
use conductor.Prelude.Text.{trim_space}
use conductor.Host.{Host}
use conductor.State.Records.{IdempotencyRecord}
use conductor.State.Store.{Store}
use conductor.Api.Context.{tenant_id}
use conductor.Api.Http.{Request, Response, Clock, Handler, header, bare, json_text}

abbrev pub is_mutating : String → Bool
is_mutating method =
    method == "POST" || (method == "PUT" || (method == "PATCH" || method == "DELETE"))

abbrev pub idempotency_key : Request → String
idempotency_key r = trim_space (header "Idempotency-Key" r)

abbrev pub endpoint_of : Request → String
endpoint_of r = let path = trim_space r.path in if path == "" then "/" else path

-- `if status == 0 { status = http.StatusOK }`
abbrev pub or_status_ok : ℕ → ℕ
or_status_ok status = if status == 0 then 200 else status

-- `24 * time.Hour`
abbrev pub time_to_live : ℕ
time_to_live = 86400000000000

-- The body is read to its end and handed on: the error of the read is dropped.
unfoldable pub rewrapped : Request → Request
rewrapped r = record r { body = record { bytes = r.body.bytes; failure = none } }

abbrev pub replayed : IdempotencyRecord → Response
replayed rec = json_text (or_status_ok rec.status_code) rec.body_json

abbrev pub record_of : Clock → Response → IdempotencyRecord
record_of clock resp = record {
  status_code = or_status_ok resp.status;
  body_json = resp.body;
  expires_at = clock.expiring + time_to_live;
  created_at = clock.recorded;
}

module _ (h : Host) {S : Type 0} where
  -- A miss: the response is recorded, written, and then cached; an error of the cache is ignored.
  abbrev pub recorded : Store S → Handler S → Handler S
  recorded store next clock r s =
      let (resp, s') = next clock (rewrapped r) s in
      (
        record resp { status = or_status_ok resp.status },
        (store.put_idempotency (tenant_id r.context) (endpoint_of r)
            (h.sha256_hex (idempotency_key r)) (record_of clock resp) s').1,
      )

  abbrev pub cached_or : Store S → Handler S → Result (Option IdempotencyRecord) → Handler S
  cached_or store next (err m) clock r s =
      (json_text 500 "{\"error\":\"idempotency_lookup_failed\"}", s)
  cached_or store next (ok (some rec)) clock r s = (replayed rec, s)
  cached_or store next (ok none) clock r s = recorded store next clock r s

  unfoldable pub idempotency_middleware : Option (Store S) → Option (Handler S) → Handler S
  idempotency_middleware store none clock r s = (bare 500, s)
  idempotency_middleware none (some next) clock r s = (bare 500, s)
  idempotency_middleware (some store) (some next) clock r s =
      if is_mutating r.method
      then (if idempotency_key r == ""
          then next clock r s
          else cached_or store next
              (store.get_idempotency clock.looked_up (tenant_id r.context) (endpoint_of r)
                (h.sha256_hex (idempotency_key r)) s)
              clock r s)
      else next clock r s
