-- ===== src/Api/Middleware/Replay.antt =====
-- A retried request.
use conductor.Prelude.{
  ◌∙◌, sym, ℕ, ◌+◌, ◌≤◌, ◌≡◌, refl, ◌≢◌, true, none, some, arith, eq_iff, nat_eq_iff,
}
use conductor.Host.{Host}
use conductor.State.Records.{IdempotencyRecord}
use conductor.State.Memory.{MemoryStore, Shuffle, memory_store, get_idempotency, put_idempotency}
use conductor.State.Memory.Views.{get_idempotency-put}
use conductor.Api.Context.{tenant_id}
use conductor.Api.Http.{Request, Clock, Handler, json_text}
use conductor.Api.Middleware.Idempotency.{
  idempotency_middleware, is_mutating, idempotency_key, endpoint_of, time_to_live, record_of,
  rewrapped, or_status_ok, replayed,
}

-- The middleware over the store in memory.
abbrev pub guarded : Host → Shuffle → Handler MemoryStore → Handler MemoryStore
guarded h f next = idempotency_middleware h (some (memory_store f)) (some next)

-- Two requests that count as one: mutating, with one key, endpoint and tenant.
pub record IsRetry (q r : Request) : Type 0 where
  pub first : is_mutating q.method ≡ true
  pub again : is_mutating r.method ≡ true
  pub keyed : idempotency_key q ≢ ""
  pub key : idempotency_key r ≡ idempotency_key q
  pub endpoint : endpoint_of r ≡ endpoint_of q
  pub tenant : tenant_id r.context ≡ tenant_id q.context

-- The cached response for a request, as the middleware looks it up.
abbrev pub IsUncached : Host → ℕ → Request → MemoryStore → Type 0
IsUncached h now r s =
    get_idempotency now (tenant_id r.context) (endpoint_of r) (h.sha256_hex (idempotency_key r)) s
    ≡ none

first_call :
    (h : Host) (f : Shuffle) (next : Handler MemoryStore) (clock : Clock) (q : Request)
    (s : MemoryStore)
    → is_mutating q.method ≡ true
    → idempotency_key q ≢ ""
    → IsUncached h clock.looked_up q s
    → guarded h f next clock q s ≡ (
      record (next clock (rewrapped q) s).0 {
        status = or_status_ok (next clock (rewrapped q) s).0.status;
      },
      put_idempotency
          (tenant_id q.context)
          (endpoint_of q)
          (h.sha256_hex (idempotency_key q))
          (record_of clock (next clock (rewrapped q) s).0)
          (next clock (rewrapped q) s).1,
    )
unfolding idempotency_middleware memory_store
first_call h f next clock q s mutating keyed miss = ground (arith, eq_iff (idempotency_key q) "")

second_call :
    (h : Host) (f : Shuffle) (later : Handler MemoryStore) (clock : Clock) (r : Request)
    (rec : IdempotencyRecord) (s : MemoryStore)
    → is_mutating r.method ≡ true
    → idempotency_key r ≢ ""
    → get_idempotency clock.looked_up
        (tenant_id r.context)
        (endpoint_of r)
        (h.sha256_hex (idempotency_key r))
        s
      ≡ some rec
    → guarded h f later clock r s ≡ (replayed rec, s)
unfolding idempotency_middleware memory_store
second_call h f later clock r rec s mutating keyed hit =
    ground (arith, eq_iff (idempotency_key r) "")

or_status_ok_idem : (n : ℕ) → or_status_ok (or_status_ok n) ≡ or_status_ok n
or_status_ok_idem n = ground arith

-- The retry finds what the first call put.
found_again :
    (h : Host) (q r : Request) (now : ℕ) (rec : IdempotencyRecord) (s : MemoryStore)
    → IsRetry q r
    → now ≤ rec.expires_at
    → get_idempotency now (tenant_id r.context) (endpoint_of r) (h.sha256_hex (idempotency_key r)) (
        put_idempotency
          (tenant_id q.context)
          (endpoint_of q)
          (h.sha256_hex (idempotency_key q))
          rec
          s)
      ≡ some rec
found_again h q r now rec s retry fresh =
    rw (retry.tenant, retry.endpoint, retry.key)
      (ground (
        arith,
        nat_eq_iff (tenant_id q.context) (tenant_id q.context),
        eq_iff (endpoint_of q) (endpoint_of q),
        eq_iff (h.sha256_hex (idempotency_key q)) (h.sha256_hex (idempotency_key q)),
        get_idempotency-put now (tenant_id q.context) (tenant_id q.context) (endpoint_of q)
            (endpoint_of q) (h.sha256_hex (idempotency_key q)) (h.sha256_hex (idempotency_key q))
            rec s,
      ))

-- A retry within 24 hours of a request that was not cached gets the status and the body of the first
-- response, whatever handler stands behind the middleware now, and changes nothing.
pub guarded-retry :
    (h : Host) (f : Shuffle) (next later : Handler MemoryStore) (clock clock' : Clock)
    (q r : Request) (s : MemoryStore)
    → IsRetry q r
    → IsUncached h clock.looked_up q s
    → clock'.looked_up ≤ clock.expiring + time_to_live
    → guarded h f later clock' r (guarded h f next clock q s).1 ≡ (
      json_text (guarded h f next clock q s).0.status (guarded h f next clock q s).0.body,
      (guarded h f next clock q s).1,
    )
guarded-retry h f next later clock clock' q r s retry miss fresh =
    let (resp, s') = next clock (rewrapped q) s in
    let rec = record_of clock resp in
    let again = found_again h q r clock'.looked_up rec s' retry fresh in
    let cached =
      put_idempotency (tenant_id q.context) (endpoint_of q) (h.sha256_hex (idempotency_key q)) rec
        s' in
    rw (first_call h f next clock q s retry.first retry.keyed miss) (
      rw
        (second_call h f later clock' r rec cached retry.again
          (λ e. retry.keyed (sym retry.key ∙ e)) again)
        (rw (or_status_ok_idem resp.status) refl))
