-- ===== src/Legacy/Idempotency.antt =====
-- internal/ingest/idempotency_http.go
pub mod Retry
use conductor.Prelude.{ℕ, String, Option, none, some, if◌then◌else◌}
use conductor.Prelude.Equality.{◌==◌, string_instance, nat_instance}
use conductor.Api.Http.{Request, Response, Clock, Handler, header, bare, json_text}
use conductor.Api.Middleware.Idempotency.{or_status_ok}
use conductor.Legacy.Stores.{CachedResponse, IdempotencyStore, get_record, set_record}

-- The header, not trimmed.
abbrev pub legacy_key : Request → String
legacy_key r = header "Idempotency-Key" r

-- What is kept of a response; `captureWriter` holds its status and its body.
abbrev pub captured : Clock → Response → CachedResponse
captured clock resp = record {
  status_code = or_status_ok resp.status;
  body = resp.body;
  created_at = clock.recorded;
}

module _ {S : Type 0} where
  -- The store after the look-up, and the handler's own state.
  abbrev answer_hit_or :
      Handler S
      → Clock
      → Request
      → Option CachedResponse × IdempotencyStore
      → S
      → Response × (Option IdempotencyStore × S)
  answer_hit_or next clock r (some rec, cache) s =
      (json_text rec.status_code rec.body, (some cache, s))
  answer_hit_or next clock r (none, cache) s =
      let (resp, s') = next clock r s in
      (
        record resp { status = or_status_ok resp.status },
        (some (set_record (legacy_key r) (captured clock resp) cache), s'),
      )

  abbrev behind : IdempotencyStore → Response × S → Response × (Option IdempotencyStore × S)
  behind cache (resp, s) = (resp, (some cache, s))

  -- `Next` and `Store` may be nil.
  unfoldable pub legacy_idempotency_middleware :
      Option (Handler S)
      → Clock
      → Request
      → Option IdempotencyStore × S
      → Response × (Option IdempotencyStore × S)
  legacy_idempotency_middleware none clock r q = (bare 500, q)
  legacy_idempotency_middleware (some next) clock r (none, s) = (bare 500, (none, s))
  legacy_idempotency_middleware (some next) clock r (some cache, s) =
      if legacy_key r == ""
      then behind cache (next clock r s)
      else answer_hit_or next clock r (get_record clock.looked_up (legacy_key r) cache) s
