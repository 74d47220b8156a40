-- ===== src/Service.antt =====
-- The two commands on one store: cmd/worker/main.go, and the requests that cmd/api/main.go serves. They
-- share a store only over the database; the store in memory stands here for what a store promises.
pub mod Pass
pub mod Whole
use conductor.Prelude.{String, pos, Option, none, some, Result}
use conductor.Host.{Host}
use conductor.State.Store.{Store}
use conductor.State.Memory.{MemoryStore, Shuffle, memory_store}
use conductor.Api.Context.{background}
use conductor.Api.Http.{Request, Clock}
use conductor.Api.Auth.{JwtLibrary}
use conductor.Api.Upsert.{Encoder, Intake}
use conductor.Api.Bulk.{Gzip}
use conductor.Api.Runs.{RunsEncoder}
use conductor.Api.Server.{Web, serve}
use conductor.Api.Server.Reaches.{IsFresh}
use conductor.Api.Server.Serving.{memory_server}
use conductor.Execute.{Executor, execute}
use conductor.Worker.{Runner, tick, with_defaults}

-- The executor of the worker's command has no hook yet.
abbrev pub main_executor : {S : Type 0} → Store S → Executor S
main_executor store = record { store = some store; product_limit = pos 0; on_execute = none }

abbrev pub main_runner : {S : Type 0} → Store S → Runner S
main_runner store = record {
  store = some store;
  poll_every = pos 1000000000;
  claim_ttl = pos 0;
  max_per_claim = pos 10;
  process_fn = none;
  executor = some (execute (main_executor store));
}

-- One pass of the worker's command.
unfoldable pub main_pass : {S : Type 0} → Store S → S → Result (Unit {0}) × S
main_pass store s = tick store (with_defaults (main_runner store)) background s

module _ (h : Host) (web : Web) (gz : Gzip) (encoder : Encoder) (runs_encoder : RunsEncoder)
    {K : Type 0} (jwt : JwtLibrary K) (f : Shuffle) (env : String) (key : Option K) where
  -- A request that is served, or a pass of the worker. A request draws a run id that no run has.
  pub data Action (s : MemoryStore) : MemoryStore → Type 0 where
    request :
        (intake : Intake) (clock : Clock) (r : Request)
        → IsFresh intake.new_run_id s
        → Action s
            (serve h web gz encoder runs_encoder jwt (memory_server f env key) intake clock r s).1
    pass : Action s (main_pass (memory_store f) s).1

  pub data Actions (s : MemoryStore) : MemoryStore → Type 0 where
    none_yet : Actions s s
    and_then : {t u : MemoryStore} → Actions s t → Action t u → Actions s u
