-- ===== src/Api/Server.antt =====
-- cmd/api/main.go: the routes of the server and the answer to health checks, behind the chain of
-- Api.Middleware.Chain.
pub mod Reaches
pub mod Uploads
pub mod Serving
use conductor.Prelude.{
  String, Bool, true, false, Option, none, some, List, [], ◌∷◌, Result, ok, err, if◌then◌else◌,
}
use conductor.Prelude.Equality.{◌==◌, string_instance}
use conductor.Host.{Host}
use conductor.State.Store.{Store}
use conductor.Api.Http.{Request, Response, Handler, json_text}
use conductor.Api.Auth.{JwtLibrary}
use conductor.Api.Middleware.Auth.{strip_prefix}
use conductor.Api.Middleware.Chain.{root}
use conductor.Api.Middleware.Idempotency.{idempotency_middleware}
use conductor.Api.Upsert.{Encoder, Intake, upsert_handler}
use conductor.Api.Bulk.{Gzip, bulk_upsert_handler}
use conductor.Api.Runs.{RunsEncoder, runs_handler, run_detail_handler}

-- What the routes take from outside: the answer of `http.ServeMux` to a request that it redirects to a
-- cleaner path, its page for an unknown path, and the encoder of the health check.
pub record Web : Type 0 where
  pub redirect : Request → Option Response
  pub not_found : Response
  pub healthy : String → Bool → String
  pub unhealthy : String → String → String

-- What the server was started with, and the answer of the database to a ping, where there is one.
pub record Server (K : Type 0) (S : Type 0) : Type 0 where
  pub env : String
  pub backend : String
  pub public_key : Option K
  pub store : Store S
  pub ping : Option (Result (Unit {0}))

abbrev pub healthz : Web → String → Option (Result (Unit {0})) → Response
healthz web backend none = json_text 200 (web.healthy backend false)
healthz web backend (some (ok _)) = json_text 200 (web.healthy backend true)
healthz web backend (some (err m)) = json_text 503 (web.unhealthy backend m)

abbrev pub main_channels : List String
main_channels = "google" ∷ []

-- A pattern that ends in a slash takes every path below it.
abbrev pub is_below : Option String → Bool
is_below none = false
is_below (some rest) = true

module _ (h : Host) (web : Web) (gz : Gzip) (encoder : Encoder) (runs_encoder : RunsEncoder)
    {S : Type 0} where
  -- The handlers behind the idempotency middleware.
  abbrev pub debug_upsert : Store S → Intake → Handler S
  debug_upsert store intake = idempotency_middleware h (some store) (
      some (
        upsert_handler h encoder intake
          (record { store = some store; enabled_channels = main_channels })))

  abbrev pub debug_bulk : Store S → Intake → Handler S
  debug_bulk store intake = idempotency_middleware h (some store) (
      some (
        bulk_upsert_handler h encoder gz intake
          (record { store = some store; enabled_channels = main_channels })))

  abbrev pub routes : {K : Type 0} → Server K S → Intake → Handler S
  routes server intake clock r s =
      if r.path == "/healthz"
      then (healthz web server.backend server.ping, s)
      else if r.path == "/v1/debug/products:upsert"
      then debug_upsert server.store intake clock r s
      else if r.path == "/v1/debug/products:upsert-bulk"
      then debug_bulk server.store intake clock r s
      else if r.path == "/v1/debug/runs"
      then runs_handler runs_encoder server.store clock r s
      else if is_below (strip_prefix "/v1/debug/runs/" r.path)
      then run_detail_handler runs_encoder server.store clock r s
      else (web.not_found, s)

  abbrev pub redirected_or : Option Response → Handler S → Handler S
  redirected_or (some resp) next clock r s = (resp, s)
  redirected_or none next clock r s = next clock r s

  unfoldable pub mux : {K : Type 0} → Server K S → Intake → Handler S
  mux server intake clock r s = redirected_or (web.redirect r) (routes server intake) clock r s

  -- One request to the server.
  unfoldable pub serve : {K : Type 0} → JwtLibrary K → Server K S → Intake → Handler S
  serve jwt server intake = root jwt server.env server.public_key (mux server intake)
