-- ===== src/Tests/State.antt =====
-- Tests of the store, of the executor and of the worker.
use conductor.Prelude.{
  ℕ, pos, String, ◌≡◌, refl, true, false, none, some, List, [], ◌∷◌, Result, ok, err, arith, eq_iff,
  if◌then◌else◌, keep, Permᴰ,
}
use conductor.Prelude.Equality.{◌==◌, nat_instance, string_instance}
use conductor.Prelude.Maps.{lookup}
use conductor.Prelude.Sorting.{sort_by}
use conductor.Ingest.Processor.{ProductProcessResult}
use conductor.State.Memory.{
  MemoryStore, values, newest_first, of_tenant, get_run, list_runs, candidates, claim_runs,
  complete_run, memory_store,
}
use conductor.State.Memory.Listing.{IsPage, list_runs-IsPage}
use conductor.State.Memory.Claims.{
  is_claimed, processing, ClaimsPage, claim_runs-IsPage, lookup-claim_runs,
}
use conductor.State.Spec.{Call, put_hash, read_hash, read_run, claim, SpecTrace, perform_all}
use conductor.State.Memory.Refine.{view, memory_store_refines}
use conductor.State.Memory.Steps.{here, next, complete, claim_once}
use conductor.Api.Context.{background}
use conductor.Execute.{execute, is_enqueued_result}
use conductor.Execute.Delivery.{Hook, executor_with, stored_products, execute_delivers}
use conductor.Worker.{Runner, RunExecutor, cancelled, returned, ticked, tick, run, with_defaults}
use conductor.Worker.Outcomes.{Reports, finished, lookup-tick}
use conductor.Tests.Data.{shuffle, shuffle-Shuffles, run_one, shop, shop-IsKeyed}

list_runs-IsPage_example :
    IsPage newest_first
      (keep (of_tenant 7) (values shop.runs))
      (pos 1)
      (list_runs shuffle 7 (pos 1) shop)
list_runs-IsPage_example = list_runs-IsPage shuffle 7 (pos 1) shop shuffle-Shuffles

claim_runs-IsPage_example : ClaimsPage (pos 1) shop (claim_runs shuffle (pos 1) shop).0
claim_runs-IsPage_example = claim_runs-IsPage shuffle (pos 1) shop shuffle-Shuffles

lookup-claim_runs_example : lookup "r2" (claim_runs shuffle (pos 1) shop).1.runs ≡ (
    if is_claimed "r2" (claim_runs shuffle (pos 1) shop).0
    then processing (lookup "r2" shop.runs)
    else lookup "r2" shop.runs)
lookup-claim_runs_example =
    lookup-claim_runs shuffle (pos 1) shop "r2" shuffle-Shuffles shop-IsKeyed

-- A call for one run takes the older one.
older_first : is_claimed "r2" (claim_runs shuffle (pos 1) shop).0 ≡ true
unfolding claim_runs candidates sort_by
older_first = refl

claim_once_example :
    is_claimed "r2"
      (claim_runs shuffle (pos 5) (complete_run 7 "r2" (claim_runs shuffle (pos 1) shop).1)).0
    ≡ false
claim_once_example =
    claim_once shuffle (pos 1) (pos 5) "r2" shop
      (complete_run 7 "r2" (claim_runs shuffle (pos 1) shop).1) shuffle-Shuffles shop-IsKeyed
      older_first (next here (complete 7 "r2" (claim_runs shuffle (pos 1) shop).1))

-- A hash is stored and read, and a run is claimed, completed and read.
abbrev calls : List Call
calls =
    put_hash 7 "mug" "h1"
    ∷ read_hash 7 "mug"
    ∷ claim (pos 1)
    ∷ Call.complete 7 "r2"
    ∷ read_run 7 "r2"
    ∷ []

memory_store_refines_example :
    SpecTrace
      (view shop)
      calls
      (perform_all (memory_store shuffle) calls shop).0
      (view (perform_all (memory_store shuffle) calls shop).1)
memory_store_refines_example = memory_store_refines shuffle shuffle-Shuffles calls shop shop-IsKeyed

named : ¬ (run_one.run_id ≡ "")
named e = ground (arith, eq_iff "r1" "")

owned : ¬ (run_one.tenant_id ≡ 0)
owned e = omega arith

abbrev hook : Hook
hook = λ ctx run products s. (err "refused", s)

run_one_found : get_run 7 "r1" shop ≡ some run_one
unfolding get_run lookup
run_one_found = refl

execute_delivers_example :
    (batch : List ProductProcessResult) × (execute
        (executor_with shuffle (pos 0) (some hook))
        background
        "r1"
        7
        shop
      ≡ hook background run_one batch shop)
    × Permᴰ batch (keep is_enqueued_result (stored_products "r1" shop))
unfolding lookup
execute_delivers_example =
    execute_delivers shuffle (pos 0) hook background "r1" 7 shop run_one shuffle-Shuffles named
      owned run_one_found (omega arith)

-- An executor that fails one run and completes the others.
abbrev verdict : String → ℕ → Result (Unit {0})
verdict id t = if id == "r2" then err "push failed" else ok tt

abbrev executor : RunExecutor MemoryStore
executor ctx id t s = (verdict id t, s)

executor-Reports : Reports executor verdict
executor-Reports = record { says = λ ctx id t s run named owned found. refl }

abbrev runner : Runner MemoryStore
runner = record {
  store = some (memory_store shuffle);
  poll_every = pos 0;
  claim_ttl = pos 0;
  max_per_claim = pos 1;
  process_fn = none;
  executor = some executor;
}

lookup-tick_example :
    lookup "r2"
      (tick
        (memory_store shuffle)
        (record runner { executor = some executor })
        background
        shop).1.runs
    ≡ (if is_claimed "r2" (claim_runs shuffle runner.max_per_claim shop).0
        then finished shuffle verdict "r2" (lookup "r2" shop.runs)
        else lookup "r2" shop.runs)
unfolding lookup
lookup-tick_example =
    lookup-tick shuffle verdict runner executor background executor-Reports shop "r2"
      shuffle-Shuffles shop-IsKeyed refl

-- The worker makes one pass at once and one more at the tick, and stops at the cancellation.
two_passes : run runner background (ticked ∷ cancelled "context canceled" ∷ ticked ∷ []) shop ≡ (
  returned (err "context canceled"),
  (tick
      (memory_store shuffle)
      (with_defaults runner)
      background
      (tick (memory_store shuffle) (with_defaults runner) background shop).1).1,
)
unfolding run tick memory_store
two_passes = refl
