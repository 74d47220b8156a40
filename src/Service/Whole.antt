-- ===== src/Service/Whole.antt =====
-- The service as a whole: requests and passes of the worker in any order.
use mathlib.Core.Path.{subst}
use conductor.Prelude.{
  ℕ, String, pos, true, false, ◌≡◌, sym, Option, Result, ok, err, List, [], ◌∷◌, arith, eq_iff,
  nat_eq_iff,
}
use conductor.Prelude.Equality.{string_instance, nat_instance}
use conductor.Host.{Host}
use conductor.State.Records.{RunClaim}
use conductor.State.Memory.{MemoryStore, Shuffle, Shuffles, memory_store, claim_runs}
use conductor.State.Memory.Keyed.{IsKeyed}
use conductor.State.Memory.Steps.{Reach, here, next, claim, complete, fail, claim_once}
use conductor.State.Memory.Claims.{is_claimed}
use conductor.Api.Context.{Context, background}
use conductor.Api.Auth.{JwtLibrary}
use conductor.Api.Upsert.{Encoder}
use conductor.Api.Bulk.{Gzip}
use conductor.Api.Runs.{RunsEncoder}
use conductor.Api.Server.{Web}
use conductor.Api.Server.Reaches.{Reach-trans}
use conductor.Api.Server.Serving.{serve-Reach}
use conductor.Execute.{execute}
use conductor.Worker.{tick, with_defaults, job_context, process_claims, settle}
use conductor.Service.{
  main_executor, main_runner, main_pass, Action, Actions, request, pass, none_yet, and_then,
}

module _ (f : Shuffle) where
  -- Without a hook the executor leaves the store alone.
  main_execute-state :
      (ctx : Context) (id : String) (t : ℕ) (s : MemoryStore)
      → (execute (main_executor (memory_store f)) ctx id t s).1 ≡ s
  unfolding execute memory_store
  main_execute-state ctx id t s = ground (arith, eq_iff id "", nat_eq_iff t 0)

  settle-Reach :
      (c : RunClaim) (v : Result (Unit {0})) (s : MemoryStore)
      → Reach f s (settle (memory_store f) c v s)
  unfolding memory_store
  settle-Reach c (ok _) s = next here (complete c.tenant_id c.run_id s)
  settle-Reach c (err m) s = next here (fail c.tenant_id c.run_id m s)

  process_claims-Reach :
      (cs : List RunClaim) (s : MemoryStore)
      → Reach f s (
          process_claims
            (memory_store f)
            (with_defaults (main_runner (memory_store f)))
            background
            cs
            s)
  unfolding process_claims with_defaults
  process_claims-Reach [] s = here
  process_claims-Reach (c ∷ cs) s =
      let q =
        execute (main_executor (memory_store f)) (job_context background c) c.run_id c.tenant_id
          s in
      let kept = main_execute-state (job_context background c) c.run_id c.tenant_id s in
      Reach-trans f
        (subst (λ s'. Reach f s (settle (memory_store f) c q.0 s')) (sym kept)
          (settle-Reach c q.0 s))
        (process_claims-Reach cs (settle (memory_store f) c q.0 q.1))

  -- The rest of a pass, behind its claims.
  claimed-Reach :
      (s : MemoryStore) → Reach f (claim_runs f (pos 10) s).1 (main_pass (memory_store f) s).1
  unfolding main_pass tick memory_store with_defaults
  claimed-Reach s = process_claims-Reach (claim_runs f (pos 10) s).0 (claim_runs f (pos 10) s).1

  main_pass-Reach : (s : MemoryStore) → Reach f s (main_pass (memory_store f) s).1
  main_pass-Reach s = Reach-trans f (next here (claim (pos 10) s)) (claimed-Reach s)

module _ (h : Host) (web : Web) (gz : Gzip) (encoder : Encoder) (runs_encoder : RunsEncoder)
    {K : Type 0} (jwt : JwtLibrary K) (f : Shuffle) (env : String) (key : Option K) where
  Action-Reach :
      {s t : MemoryStore} → Action h web gz encoder runs_encoder jwt f env key s t → Reach f s t
  Action-Reach {s} (request intake clock r fresh) =
      serve-Reach h web gz encoder runs_encoder f env key intake clock s fresh jwt r
  Action-Reach {s} pass = main_pass-Reach f s

  Actions-Reach :
      {s t : MemoryStore} → Actions h web gz encoder runs_encoder jwt f env key s t → Reach f s t
  Actions-Reach none_yet = here
  Actions-Reach (and_then before a) = Reach-trans f (Actions-Reach before) (Action-Reach a)

  -- A run that a pass of the worker claims is claimed by no later pass, whatever requests the server has
  -- served and however often the worker has passed in between. Each request draws a run id that no
  -- run has.
  pub Actions-claim_once :
      (id : String) (s t : MemoryStore)
      → Shuffles f
      → IsKeyed s.runs
      → is_claimed id (claim_runs f (pos 10) s).0 ≡ true
      → Actions h web gz encoder runs_encoder jwt f env key (main_pass (memory_store f) s).1 t
      → is_claimed id (claim_runs f (pos 10) t).0 ≡ false
  Actions-claim_once id s t shuffles keyed claimed taken =
      claim_once f (pos 10) (pos 10) id s t shuffles keyed claimed
        (Reach-trans f (claimed-Reach f s) (Actions-Reach taken))
