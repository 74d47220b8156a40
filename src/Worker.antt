-- ===== src/Worker.antt =====
-- internal/worker/runner.go
pub mod Outcomes
use conductor.Prelude.{
  ℕ, ℤ, pos, positive_or, String, Option, none, some, List, [], ◌∷◌, Result, ok, err,
}
use conductor.State.Records.{RunClaim}
use conductor.State.Store.{Store}
use conductor.Api.Context.{Context, with_tenant_id, with_run_id}

pub record Job : Type 0 where
  pub run_id : String
  pub tenant_id : ℕ

-- `RunExecutor.Execute`, and `ProcessFn`: each may act on the store.
abbrev pub RunExecutor : Type 0 → Type 0
RunExecutor S = Context → String → ℕ → S → Result (Unit {0}) × S

-- Durations are nanoseconds.
pub record Runner (S : Type 0) : Type 0 where
  pub store : Option (Store S)
  pub poll_every : ℤ
  pub claim_ttl : ℤ
  pub max_per_claim : ℤ
  pub process_fn : Option (Context → Job → S → Result (Unit {0}) × S)
  pub executor : Option (RunExecutor S)

-- The context that a job runs under.
unfoldable pub job_context : Context → RunClaim → Context
unfolding with_tenant_id with_run_id
job_context ctx c = with_run_id (with_tenant_id ctx c.tenant_id) c.run_id

module _ {S : Type 0} where
  abbrev call_process_fn :
      Option (Context → Job → S → Result (Unit {0}) × S) → Context → Job → S → Result (Unit {0}) × S
  call_process_fn none ctx job s = (ok tt, s)
  call_process_fn (some fn) ctx job s = fn ctx job s

  -- The executor where there is one, or else `ProcessFn`.
  abbrev call_executor :
      Option (RunExecutor S) → Runner S → Context → RunClaim → S → Result (Unit {0}) × S
  call_executor none r ctx c s =
      call_process_fn r.process_fn ctx (record { run_id = c.run_id; tenant_id = c.tenant_id }) s
  call_executor (some execute) r ctx c s = execute ctx c.run_id c.tenant_id s

  -- An executor's error fails the run; what the store answers to that is ignored.
  abbrev pub settle : Store S → RunClaim → Result (Unit {0}) → S → S
  settle store c (ok _) s = (store.complete_run c.tenant_id c.run_id s).1
  settle store c (err m) s = (store.fail_run c.tenant_id c.run_id m s).1

  unfoldable pub process_claims : Store S → Runner S → Context → List RunClaim → S → S
  process_claims store r ctx [] s = s
  process_claims store r ctx (c ∷ cs) s =
      let (verdict, s') = call_executor r.executor r (job_context ctx c) c s in
      process_claims store r ctx cs (settle store c verdict s')

  abbrev pub process_claimed :
      Store S → Runner S → Context → Result (List RunClaim) → S → Result (Unit {0}) × S
  process_claimed store r ctx (err m) s = (err m, s)
  process_claimed store r ctx (ok claims) s = (ok tt, process_claims store r ctx claims s)

  unfoldable pub tick : Store S → Runner S → Context → S → Result (Unit {0}) × S
  tick store r ctx s =
      let (claims, s') = store.claim_runs r.max_per_claim s in process_claimed store r ctx claims s'

  -- The defaults that `Run` puts in.
  unfoldable pub with_defaults : Runner S → Runner S
  with_defaults r = record r {
    poll_every = pos (positive_or 500000000 r.poll_every);
    claim_ttl = pos (positive_or 30000000000 r.claim_ttl);
    max_per_claim = pos (positive_or 10 r.max_per_claim);
  }

-- What the `select` of the loop receives.
pub data Event : Type 0 where
  ticked : Event
  cancelled : String → Event

-- How far `Run` has come when the events are used up: it has returned, or it still waits.
pub data Progress : Type 0 where
  returned : Result (Unit {0}) → Progress
  waiting : Progress

module _ {S : Type 0} (store : Store S) (r : Runner S) (ctx : Context) where
  unfoldable pub run_loop : List Event → Result (Unit {0}) × S → Progress × S
  run_loop es (err m, s) = (returned (err m), s)
  run_loop [] (ok _, s) = (waiting, s)
  run_loop (cancelled m ∷ es) (ok _, s) = (returned (err m), s)
  run_loop (ticked ∷ es) (ok _, s) = run_loop es (tick store r ctx s)

module _ {S : Type 0} where
  abbrev run_with : Option (Store S) → Runner S → Context → List Event → S → Progress × S
  run_with none r ctx events s = (returned (err "store is nil"), s)
  run_with (some store) r ctx events s =
      let r' = with_defaults r in run_loop store r' ctx events (tick store r' ctx s)

  -- `Run`: the defaults, one immediate pass, and the loop.
  unfoldable pub run : Runner S → Context → List Event → S → Progress × S
  unfolding with_defaults run_loop
  run r ctx events s = run_with r.store r ctx events s
