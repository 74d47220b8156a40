-- ===== src/Execute/Delivery.antt =====
-- What `Execute` hands to the hook, over the store in memory.
use conductor.Prelude.{
  ℕ, ℤ, pos, positive_or, String, ◌≡◌, ◌≢◌, Option, none, some, List, Result, ok, err, arith,
  eq_iff, nat_eq_iff, keep, Permᴰ, length, ◌≤◌,
}
use conductor.Prelude.Maps.{lookup}
use conductor.Prelude.Equality.{string_instance}
use conductor.Ingest.Processor.{ProductProcessResult}
use conductor.State.Records.{RunRecord}
use conductor.State.Memory.{
  MemoryStore, Shuffle, Shuffles, get_run, list_run_products, by_product_key, memory_store,
}
use conductor.State.Memory.Listing.{IsPage-whole, keep-perm, products_of, list_run_products-IsPage}
use conductor.Api.Context.{Context}
use conductor.Execute.{Executor, execute, err_run_not_found, is_enqueued_result}

abbrev pub Hook : Type 0
Hook =
    Context → RunRecord → List ProductProcessResult → MemoryStore → Result (Unit {0}) × MemoryStore

abbrev pub executor_with : Shuffle → ℤ → Option Hook → Executor MemoryStore
executor_with f limit hook = record {
  store = some (memory_store f);
  product_limit = limit;
  on_execute = hook;
}

-- The results that are stored for a run.
abbrev pub stored_products : String → MemoryStore → List ProductProcessResult
stored_products id s = products_of (lookup id s.run_products)

execute-found :
    (f : Shuffle) (limit : ℤ) (hook : Hook) (ctx : Context) (id : String) (t : ℕ) (s : MemoryStore)
    (run : RunRecord)
    → id ≢ ""
    → t ≢ 0
    → get_run t id s ≡ some run
    → execute (executor_with f limit (some hook)) ctx id t s
      ≡ hook ctx run
          (keep is_enqueued_result (list_run_products f id (pos (positive_or 100000 limit)) s))
          s
unfolding execute memory_store
execute-found f limit hook ctx id t s run h k e = ground (arith, eq_iff id "", nat_eq_iff t 0)

-- For the tenant's run the hook receives the run and all its enqueued products and nothing else,
-- if no more results are stored for the run than the limit (100000 by default).
pub execute_delivers :
    (f : Shuffle) (limit : ℤ) (hook : Hook) (ctx : Context) (id : String) (t : ℕ) (s : MemoryStore)
    (run : RunRecord)
    → Shuffles f
    → id ≢ ""
    → t ≢ 0
    → get_run t id s ≡ some run
    → length (stored_products id s) ≤ positive_or 100000 limit
    → (batch : List ProductProcessResult) × (execute (executor_with f limit (some hook)) ctx id t s
        ≡ hook ctx run batch s)
      × Permᴰ batch (keep is_enqueued_result (stored_products id s))
execute_delivers f limit hook ctx id t s run shuffles h k e fits =
    let n = positive_or 100000 limit in
    let page = list_run_products f id (pos n) s in
    (
      keep is_enqueued_result page,
      execute-found f limit hook ctx id t s run h k e,
      keep-perm is_enqueued_result (
          IsPage-whole by_product_key (stored_products id s) n page fits
            (list_run_products-IsPage f id (pos n) s shuffles)),
    )

-- A run that the tenant does not own, or that is not there, is refused before the hook.
pub execute-not_found :
    (f : Shuffle) (limit : ℤ) (hook : Option Hook) (ctx : Context) (id : String) (t : ℕ)
    (s : MemoryStore)
    → id ≢ ""
    → t ≢ 0
    → get_run t id s ≡ none
    → execute (executor_with f limit hook) ctx id t s ≡ (err err_run_not_found, s)
unfolding execute memory_store
execute-not_found f limit hook ctx id t s h k e = ground (arith, eq_iff id "", nat_eq_iff t 0)

-- Without a hook a call for the tenant's run succeeds, and changes nothing.
pub execute-no_hook :
    (f : Shuffle) (limit : ℤ) (ctx : Context) (id : String) (t : ℕ) (s : MemoryStore)
    (run : RunRecord)
    → id ≢ ""
    → t ≢ 0
    → get_run t id s ≡ some run
    → execute (executor_with f limit none) ctx id t s ≡ (ok tt, s)
unfolding execute memory_store
execute-no_hook f limit ctx id t s run h k e = ground (arith, eq_iff id "", nat_eq_iff t 0)
