-- ===== src/Service/Pass.antt =====
-- One pass of the worker of cmd/worker/main.go, whose executor has no hook.
use conductor.Prelude.{
  ℕ, String, pos, ◌≡◌, refl, ap, ◌∙◌, Option, none, some, Result, ok, arith, eq_iff, nat_eq_iff,
  if◌then◌else◌,
}
use conductor.Prelude.Equality.{string_instance, nat_instance}
use conductor.Prelude.Maps.{lookup}
use conductor.State.Records.{RunRecord}
use conductor.State.Memory.{MemoryStore, Shuffle, Shuffles, memory_store, claim_runs}
use conductor.State.Memory.Keyed.{IsKeyed}
use conductor.State.Memory.Claims.{is_claimed}
use conductor.Api.Context.{background}
use conductor.Execute.{execute}
use conductor.Worker.{with_defaults}
use conductor.Worker.Outcomes.{Reports, finished, lookup-tick}
use conductor.Service.{main_executor, main_runner, main_pass}

-- Every executor without a hook reports success.
abbrev succeeds : String → ℕ → Result (Unit {0})
succeeds id t = ok tt

abbrev pub completed_run : Option RunRecord → Option RunRecord
completed_run none = none
completed_run (some r) = some (record r { status = "completed" })

module _ (f : Shuffle) where
  main_executor-Reports : Reports (execute (main_executor (memory_store f))) succeeds
  unfolding execute memory_store
  main_executor-Reports = record {
    says = λ ctx id t s run named owned found. ground (arith, eq_iff id "", nat_eq_iff t 0, found);
  }

  finished-completed :
      (id : String) (o : Option RunRecord) → finished f succeeds id o ≡ completed_run o
  finished-completed id none = refl
  finished-completed id (some r) = refl

  -- A pass of the worker's command completes every run that it claims, although nothing is
  -- pushed for it, and changes nothing else of it and no other run. No run has the empty id.
  pub lookup-main_pass :
      (s : MemoryStore) (id : String)
      → Shuffles f
      → IsKeyed s.runs
      → lookup "" s.runs ≡ none
      → lookup id (main_pass (memory_store f) s).1.runs ≡ (
          if is_claimed id (claim_runs f (pos 10) s).0
          then completed_run (lookup id s.runs)
          else lookup id s.runs)
  unfolding main_pass with_defaults
  lookup-main_pass s id shuffles keyed named =
      lookup-tick f succeeds (with_defaults (main_runner (memory_store f)))
        (execute (main_executor (memory_store f))) background main_executor-Reports s id shuffles
        keyed named
      ∙ ap (λ o. if is_claimed id (claim_runs f (pos 10) s).0 then o else lookup id s.runs)
          (finished-completed id (lookup id s.runs))
