-- ===== src/Legacy/Idempotency/Retry.antt =====
-- A retried request at the older middleware.
use conductor.Prelude.{String, ◌≡◌, refl, ◌≢◌, Option, none, some, arith, eq_iff, ◌∙◌, sym}
use conductor.Prelude.Equality.{string_instance}
use conductor.Prelude.Maps.{lookup, lookup-insert}
use conductor.Api.Http.{Request, Clock, Response, Handler, json_text}
use conductor.Api.Middleware.Idempotency.{or_status_ok}
use conductor.Legacy.Stores.{CachedResponse, IdempotencyStore, get_record, set_record}
use conductor.Legacy.Stores.Expiry.{IsServed, is_expired-IsServed}
use conductor.Legacy.Idempotency.{legacy_key, captured, legacy_idempotency_middleware}

served_again :
    (clock : Clock) (key : String) (rec : CachedResponse) (cache : IdempotencyStore)
    → key ≢ ""
    → IsServed cache.ttl clock.looked_up rec.created_at
    → get_record clock.looked_up key (set_record key rec cache)
      ≡ (some rec, set_record key rec cache)
unfolding get_record set_record
served_again clock key rec cache keyed fresh = ground (
  arith,
  eq_iff key "",
  eq_iff key key,
  lookup-insert key key rec cache.records,
  is_expired-IsServed cache.ttl clock.looked_up rec fresh,
)

-- What the first call leaves.
abbrev first_left :
    {S : Type 0} (next : Handler S) (clock : Clock) (q : Request) (cache : IdempotencyStore) (s : S)
    → Response × (Option IdempotencyStore × S)
first_left next clock q cache s = (
  record (next clock q s).0 { status = or_status_ok (next clock q s).0.status },
  (some (set_record (legacy_key q) (captured clock (next clock q s).0) cache), (next clock q s).1),
)

first_call :
    {S : Type 0} (next : Handler S) (clock : Clock) (q : Request) (cache : IdempotencyStore) (s : S)
    → legacy_key q ≢ ""
    → lookup (legacy_key q) cache.records ≡ none
    → legacy_idempotency_middleware (some next) clock q (some cache, s)
      ≡ first_left next clock q cache s
unfolding legacy_idempotency_middleware get_record
first_call next clock q cache s keyed miss = ground (arith, eq_iff (legacy_key q) "", miss)

second_call :
    {S : Type 0} (later : Handler S) (clock : Clock) (r : Request) (rec : CachedResponse)
    (cache : IdempotencyStore) (s : S)
    → legacy_key r ≢ ""
    → get_record clock.looked_up (legacy_key r) cache ≡ (some rec, cache)
    → legacy_idempotency_middleware (some later) clock r (some cache, s)
      ≡ (json_text rec.status_code rec.body, (some cache, s))
unfolding legacy_idempotency_middleware
second_call later clock r rec cache s keyed hit = ground (arith, eq_iff (legacy_key r) "", hit)

-- A request with a key for which there is no response yet is handled and cached; a later request with
-- that key, whatever its method, its path and its tenant, gets the status and the body of the first
-- response while the time to live has not passed, and changes nothing.
pub legacy_idempotency_middleware-retry :
    {S : Type 0} (next later : Handler S) (clock clock' : Clock) (q r : Request)
    (cache : IdempotencyStore) (s : S)
    → legacy_key q ≢ ""
    → legacy_key r ≡ legacy_key q
    → lookup (legacy_key q) cache.records ≡ none
    → IsServed cache.ttl clock'.looked_up clock.recorded
    → (legacy_idempotency_middleware
          (some later)
          clock'
          r
          (legacy_idempotency_middleware (some next) clock q (some cache, s)).1
        ≡ (
          json_text
              (legacy_idempotency_middleware (some next) clock q (some cache, s)).0.status
              (legacy_idempotency_middleware (some next) clock q (some cache, s)).0.body,
          (legacy_idempotency_middleware (some next) clock q (some cache, s)).1,
        ))
      × ((legacy_idempotency_middleware (some next) clock q (some cache, s)).0.body
          ≡ (next clock q s).0.body)
      × ((legacy_idempotency_middleware (some next) clock q (some cache, s)).1.1
          ≡ (next clock q s).1)
legacy_idempotency_middleware-retry next later clock clock' q r cache s keyed same miss fresh =
    let rec = captured clock (next clock q s).0 in
    let kept = set_record (legacy_key q) rec cache in
    let hit = served_again clock' (legacy_key q) rec cache keyed fresh in
    rw (first_call next clock q cache s keyed miss) (
      second_call later clock' r rec kept (next clock q s).1 (λ e. keyed (sym same ∙ e))
          (rw same hit),
      refl,
      refl,
    )
