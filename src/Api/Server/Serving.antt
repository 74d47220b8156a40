-- ===== src/Api/Server/Serving.antt =====
-- A request to the server with the store in memory.
use conductor.Prelude.{
  ℕ, leb, String, ◌||◌, Bool-cases, inl, inr, Option, none, some, Result, ok, err,
}
use conductor.Prelude.Equality.{◌==◌, string_instance}
use conductor.Prelude.Text.{trim_space}
use conductor.Host.{Host}
use conductor.State.Records.{RunRecord, IdempotencyRecord}
use conductor.State.Memory.{MemoryStore, Shuffle, memory_store, get_idempotency, get_run}
use conductor.State.Memory.Steps.{Reach, here, next, put}
use conductor.Api.Context.{tenant_id}
use conductor.Api.Http.{Request, Response, Clock, Handler, header}
use conductor.Api.Auth.{JwtLibrary, Claims, parse_and_validate_rs256}
use conductor.Api.Middleware.Tenant.{tenant_middleware, is_dev, parse_uint64, from_header}
use conductor.Api.Middleware.Auth.{auth_middleware, admit, check_bearer, is_exempt, strip_prefix}
use conductor.Api.Middleware.Chain.{root}
use conductor.Api.Middleware.Idempotency.{
  idempotency_middleware, idempotency_key, endpoint_of, is_mutating, cached_or, rewrapped,
  record_of,
}
use conductor.Api.Upsert.{Encoder, Intake}
use conductor.Api.Bulk.{Gzip}
use conductor.Api.Runs.{
  RunsEncoder, runs_handler, run_detail_handler, found_run, run_id_of, has_slash,
}
use conductor.Api.Server.{
  Web, Server, main_channels, is_below, redirected_or, debug_upsert, debug_bulk, routes, mux, serve,
}
use conductor.Api.Server.Reaches.{IsFresh, upserting-Reach}
use conductor.Api.Server.Uploads.{uploading-Reach}

module _ (f : Shuffle) (clock : Clock) (s : MemoryStore) where
  -- Whatever the request, the handler takes steps of the store.
  abbrev Reaches : Handler MemoryStore → Type 0
  Reaches handler = (r : Request) → Reach f s (handler clock r s).1

  tenant_middleware-Reaches :
      (env : String) (inner : Handler MemoryStore)
      → Reaches inner
      → Reaches (tenant_middleware env (some inner))
  unfolding tenant_middleware
  tenant_middleware-Reaches env inner k r = elim (Bool-cases (is_dev env)) [
    | inr other ↦ rw other (k _)
    | inl dev ↦ elim (Bool-cases (trim_space (header "X-Tenant-ID" r) == "")) [
      | inl blank ↦ rw (dev, blank) (k _)
      | inr named ↦ rw (dev, named) (number (parse_uint64 (trim_space (header "X-Tenant-ID" r))))
    ]
  ]
    where
      number : (o : Option ℕ) → Reach f s (from_header inner o clock r s).1
      number none = here
      number (some n) = elim (Bool-cases (leb n 0)) [
        | inl refused ↦ rw refused here
        | inr taken ↦ rw taken (k _)
      ]

  auth_middleware-Reaches :
      {K : Type 0} (jwt : JwtLibrary K) (env : String) (key : Option K)
      (inner : Handler MemoryStore)
      → Reaches inner
      → Reaches (auth_middleware jwt env key (some inner))
  unfolding auth_middleware
  auth_middleware-Reaches {K} jwt env key inner k r = elim (Bool-cases (is_exempt env r)) [
    | inl exempt ↦ rw exempt (k r)
    | inr guarded ↦
        rw guarded (bearer (strip_prefix "Bearer " (trim_space (header "Authorization" r))))
  ]
    where
      admitted : (m : Result Claims) → Reach f s (admit jwt inner m clock r s).1
      admitted (err m) = here
      admitted (ok claims) = k _

      bearer : (o : Option String) → Reach f s (check_bearer jwt key inner o clock r s).1
      bearer none = here
      bearer (some rest) = elim (Bool-cases (trim_space rest == "")) [
        | inl empty ↦ rw empty here
        | inr filled ↦ rw filled (admitted (parse_and_validate_rs256 jwt (trim_space rest) key))
      ]

  idempotency_middleware-Reaches :
      (h : Host) (inner : Handler MemoryStore)
      → Reaches inner
      → Reaches (idempotency_middleware h (some (memory_store f)) (some inner))
  unfolding idempotency_middleware memory_store
  idempotency_middleware-Reaches h inner k r = elim (Bool-cases (is_mutating r.method)) [
    | inr reading ↦ rw reading (k r)
    | inl writing ↦ elim (Bool-cases (idempotency_key r == "")) [
      | inl unkeyed ↦ rw (writing, unkeyed) (k r)
      | inr keyed ↦
          rw (writing, keyed)
            (cached (
              get_idempotency clock.looked_up (tenant_id r.context) (endpoint_of r)
                (h.sha256_hex (idempotency_key r)) s))
    ]
  ]
    where
      cached :
          (o : Option IdempotencyRecord)
          → Reach f s (cached_or h (memory_store f) inner (ok o) clock r s).1
      cached (some rec) = here
      cached none = next (k (rewrapped r)) (
          put (tenant_id r.context) (endpoint_of r) (h.sha256_hex (idempotency_key r))
            (record_of clock (inner clock (rewrapped r) s).0) (inner clock (rewrapped r) s).1)

  runs_handler-Reaches : (e : RunsEncoder) → Reaches (runs_handler e (memory_store f))
  unfolding runs_handler
  runs_handler-Reaches e r = elim (Bool-cases (r.method == "GET")) [
    | inl get ↦ rw get here
    | inr other ↦ rw other here
  ]

  run_detail_handler-Reaches : (e : RunsEncoder) → Reaches (run_detail_handler e (memory_store f))
  unfolding run_detail_handler memory_store
  run_detail_handler-Reaches e r = elim (Bool-cases (r.method == "GET")) [
    | inr other ↦ rw other here
    | inl get ↦ elim (Bool-cases (run_id_of r.path == "" || has_slash (run_id_of r.path))) [
      | inl bad ↦ rw (get, bad) here
      | inr named ↦ rw (get, named) (found (get_run (tenant_id r.context) (run_id_of r.path) s))
    ]
  ]
    where
      found :
          (o : Option RunRecord)
          → Reach f s (found_run e (memory_store f) r (run_id_of r.path) (ok o) s).1
      found none = here
      found (some run) = here

-- The server over the store in memory.
abbrev pub memory_server : {K : Type 0} → Shuffle → String → Option K → Server K MemoryStore
memory_server f env key = record {
  env = env;
  backend = "memory";
  public_key = key;
  store = memory_store f;
  ping = none;
}

module _ (h : Host) (web : Web) (gz : Gzip) (encoder : Encoder) (runs_encoder : RunsEncoder)
    {K : Type 0} (f : Shuffle) (env : String) (key : Option K) (intake : Intake) (clock : Clock)
    (s : MemoryStore) (fresh : IsFresh intake.new_run_id s) where
  debug_upsert-Reaches :
      Reaches f clock s (debug_upsert h web gz encoder runs_encoder (memory_store f) intake)
  debug_upsert-Reaches =
      idempotency_middleware-Reaches f clock s h _
        (λ r. upserting-Reach h encoder f clock intake main_channels r s fresh)

  debug_bulk-Reaches :
      Reaches f clock s (debug_bulk h web gz encoder runs_encoder (memory_store f) intake)
  debug_bulk-Reaches =
      idempotency_middleware-Reaches f clock s h _
        (λ r. uploading-Reach h encoder gz f clock main_channels intake r s fresh)

  routes-Reaches :
      Reaches f clock s (routes h web gz encoder runs_encoder (memory_server f env key) intake)
  routes-Reaches r = elim (Bool-cases (r.path == "/healthz")) [
    | inl a ↦ rw a here
    | inr a ↦ elim (Bool-cases (r.path == "/v1/debug/products:upsert")) [
      | inl b ↦ rw (a, b) (debug_upsert-Reaches r)
      | inr b ↦ elim (Bool-cases (r.path == "/v1/debug/products:upsert-bulk")) [
        | inl c ↦ rw (a, b, c) (debug_bulk-Reaches r)
        | inr c ↦ elim (Bool-cases (r.path == "/v1/debug/runs")) [
          | inl d ↦ rw (a, b, c, d) (runs_handler-Reaches f clock s runs_encoder r)
          | inr d ↦ elim (Bool-cases (is_below (strip_prefix "/v1/debug/runs/" r.path))) [
            | inl e ↦ rw (a, b, c, d, e) (run_detail_handler-Reaches f clock s runs_encoder r)
            | inr e ↦ rw (a, b, c, d, e) here
          ]
        ]
      ]
    ]
  ]

  mux-Reaches :
      Reaches f clock s (mux h web gz encoder runs_encoder (memory_server f env key) intake)
  unfolding mux
  mux-Reaches r = go (web.redirect r)
    where
      go :
          (o : Option Response)
          → Reach f s
              (redirected_or h web gz encoder runs_encoder o
                (routes h web gz encoder runs_encoder (memory_server f env key) intake)
                clock
                r
                s).1
      go (some resp) = here
      go none = routes-Reaches r

  -- A request to the server takes steps of the store.
  pub serve-Reach :
      (jwt : JwtLibrary K) (r : Request)
      → Reach f s
          (serve h web gz encoder runs_encoder jwt (memory_server f env key) intake clock r s).1
  unfolding serve root
  serve-Reach jwt r =
      auth_middleware-Reaches f clock s jwt env key _
        (tenant_middleware-Reaches f clock s env _ mux-Reaches) r
