-- ===== src/Worker/Outcomes.antt =====
-- What one pass of the worker does to the runs of the store in memory.
use conductor.Prelude.{
  ℕ, ℤ, String, ◌≡◌, refl, ap, ◌∙◌, ◌≢◌, Bool, true, false, Option, none, some, List, [], ◌∷◌,
  Result, ok, err, arith, eq_iff, All, All-imp, if◌then◌else◌,
}
use conductor.Prelude.Equality.{◌==◌, string_instance}
use conductor.Prelude.Maps.{lookup}
use conductor.State.Records.{RunRecord, RunClaim}
use conductor.State.Memory.{
  MemoryStore, Shuffle, Shuffles, memory_store, get_run, complete_run, fail_run, claim_runs,
}
use conductor.State.Memory.Views.{
  settled, get_run-complete_run, get_run-fail_run, get_run-eq-some, get_run-of_lookup,
  lookup-complete_run, lookup-fail_run,
}
use conductor.State.Memory.Keyed.{IsKeyed}
use conductor.State.Memory.Claims.{is_claimed, lookup-claim_runs, claim_runs-IsMarked}
use conductor.Api.Context.{Context}
use conductor.Worker.{Runner, RunExecutor, job_context, settle, process_claims, tick}

abbrev pub outcome_status : Result (Unit {0}) → String
outcome_status (ok _) = "completed"
outcome_status (err m) = "failed"

-- What an executor reports of a run that is there: it leaves the store alone, and answers by the
-- run's id and tenant.
pub record Reports (execute : RunExecutor MemoryStore) (verdict : String → ℕ → Result (Unit {0}))
    : Type 0 where
  pub says :
      (ctx : Context) (id : String) (t : ℕ) (s : MemoryStore) (run : RunRecord)
      → id ≢ ""
      → t ≢ 0
      → get_run t id s ≡ some run
      → execute ctx id t s ≡ (verdict id t, s)

-- The claim names a run that its tenant has in the store.
pub record IsHeld (s : MemoryStore) (c : RunClaim) : Type 0 where
  pub run : RunRecord
  pub found : get_run c.tenant_id c.run_id s ≡ some run
  pub named : c.run_id ≢ ""
  pub owned : c.tenant_id ≢ 0

settled-some :
    (b : Bool) (status : String) (run : RunRecord)
    → settled b status (some run) ≡ some (if b then record run { status = status } else run)
settled-some true status run = refl
settled-some false status run = refl

IsHeld-settled :
    {s : MemoryStore} (s' : MemoryStore) (d : RunClaim) (b : Bool) (status : String)
    (h : IsHeld s d)
    → get_run d.tenant_id d.run_id s' ≡ settled b status (get_run d.tenant_id d.run_id s)
    → IsHeld s' d
IsHeld-settled s' d b status h e = record {
  run = if b then record h.run { status = status } else h.run;
  found = e ∙ ap (settled b status) h.found ∙ settled-some b status h.run;
  named = h.named;
  owned = h.owned;
}

module _ (f : Shuffle) (verdict : String → ℕ → Result (Unit {0})) where
  -- A run after the pass.
  abbrev pub finished : String → Option RunRecord → Option RunRecord
  finished id none = none
  finished id (some r) = some (record r { status = outcome_status (verdict id r.tenant_id) })

  abbrev after : RunClaim → MemoryStore → MemoryStore
  after c s = settle (memory_store f) c (verdict c.run_id c.tenant_id) s

  settle-IsHeld :
      (c d : RunClaim) (v : Result (Unit {0})) (s : MemoryStore)
      → IsHeld s d
      → IsHeld (settle (memory_store f) c v s) d
  unfolding memory_store
  settle-IsHeld c d (ok _) s h =
      IsHeld-settled (complete_run c.tenant_id c.run_id s) d _ "completed" h
        (get_run-complete_run c.tenant_id d.tenant_id c.run_id d.run_id s)
  settle-IsHeld c d (err m) s h =
      IsHeld-settled (fail_run c.tenant_id c.run_id m s) d _ "failed" h
        (get_run-fail_run c.tenant_id d.tenant_id c.run_id d.run_id m s)

  lookup-settle :
      (c : RunClaim) (jd : String) (v : Result (Unit {0})) (s : MemoryStore) (run : RunRecord)
      → get_run c.tenant_id c.run_id s ≡ some run
      → lookup jd (settle (memory_store f) c v s).runs ≡ (
          if c.run_id == jd
          then some (record run { status = outcome_status v })
          else lookup jd s.runs)
  unfolding memory_store
  lookup-settle c jd (ok _) s run h = lookup-complete_run c.tenant_id c.run_id jd s run h
  lookup-settle c jd (err m) s run h = lookup-fail_run c.tenant_id c.run_id jd m s run h

  finish_one :
      (c : RunClaim) (cs : List RunClaim) (jd : String) (s s' : MemoryStore) (run : RunRecord)
      → lookup c.run_id s.runs ≡ some run
      → run.tenant_id ≡ c.tenant_id
      → lookup jd s'.runs ≡ (
          if c.run_id == jd
          then some (record run { status = outcome_status (verdict c.run_id c.tenant_id) })
          else lookup jd s.runs)
      → (if is_claimed jd cs then finished jd (lookup jd s'.runs) else lookup jd s'.runs)
        ≡ (if is_claimed jd (c ∷ cs) then finished jd (lookup jd s.runs) else lookup jd s.runs)
  finish_one c cs jd s s' run found own e = ground (arith, eq_iff c.run_id jd)

  module _ (r : Runner MemoryStore) (execute : RunExecutor MemoryStore) (ctx : Context)
      (reports : Reports execute verdict) where
    abbrev runner : Runner MemoryStore
    runner = record r { executor = some execute }

    lookup-process_claims :
        (cs : List RunClaim) (jd : String) (s : MemoryStore)
        → All (IsHeld s) cs
        → lookup jd (process_claims (memory_store f) runner ctx cs s).runs
          ≡ (if is_claimed jd cs then finished jd (lookup jd s.runs) else lookup jd s.runs)
    unfolding process_claims
    lookup-process_claims [] jd s a = refl
    lookup-process_claims (c ∷ cs) jd s a =
        let h = a.0 in
        let s' = after c s in
        let (found, own) = get_run-eq-some c.tenant_id c.run_id s h.run h.found in
        ap
          (λ (v : Result (Unit {0}) × MemoryStore).
            lookup jd
              (process_claims (memory_store f) runner ctx cs
                (settle (memory_store f) c v.0 v.1)).runs)
          (reports.says (job_context ctx c) c.run_id c.tenant_id s h.run h.named h.owned h.found)
        ∙ lookup-process_claims cs jd s'
            (All-imp (λ d k. settle-IsHeld c d (verdict c.run_id c.tenant_id) s k) cs a.1)
        ∙ finish_one c cs jd s s' h.run found own
            (lookup-settle c jd (verdict c.run_id c.tenant_id) s h.run h.found)

    unnamed :
        (limit : ℤ) (s : MemoryStore)
        → Shuffles f
        → IsKeyed s.runs
        → lookup "" s.runs ≡ none
        → lookup "" (claim_runs f limit s).1.runs ≡ none
    unnamed limit s shuffles k named = ground (arith, lookup-claim_runs f limit s "" shuffles k)

    held :
        (limit : ℤ) (s : MemoryStore)
        → Shuffles f
        → IsKeyed s.runs
        → lookup "" s.runs ≡ none
        → All (IsHeld (claim_runs f limit s).1) (claim_runs f limit s).0
    held limit s shuffles k named =
        All-imp
          (λ c m. record {
            run = m.run;
            found = rw (← m.own) (get_run-of_lookup c.run_id _ m.run m.found);
            named = λ e. cc (e, m.found, unnamed limit s shuffles k named);
            owned = m.owned;
          })
          (claim_runs f limit s).0 (claim_runs-IsMarked f limit s shuffles k)

    -- One pass of the worker settles exactly the runs that it claims: a claimed run ends completed
    -- where the executor reports success and failed where it reports an error, is otherwise as it
    -- was, and every other run is untouched.
    pub lookup-tick :
        (s : MemoryStore) (id : String)
        → Shuffles f
        → IsKeyed s.runs
        → lookup "" s.runs ≡ none
        → lookup id (tick (memory_store f) runner ctx s).1.runs ≡ (
            if is_claimed id (claim_runs f r.max_per_claim s).0
            then finished id (lookup id s.runs)
            else lookup id s.runs)
    unfolding tick memory_store
    lookup-tick s id shuffles k named = ground (
      arith,
      lookup-claim_runs f r.max_per_claim s id shuffles k,
      lookup-process_claims (claim_runs f r.max_per_claim s).0 id (claim_runs f r.max_per_claim s).1
          (held r.max_per_claim s shuffles k named),
    )
