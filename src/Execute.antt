-- ===== src/Execute.antt =====
-- internal/execute/executor.go
pub mod Delivery
pub mod Paging
use conductor.Prelude.{
  ℕ, ℤ, pos, positive_or, String, concat, Bool, true, false, Option, none, some, List, Result, ok,
  err, if◌then◌else◌, keep,
}
use conductor.Prelude.Equality.{◌==◌, string_instance, nat_instance}
use conductor.Domain.{is_enqueued}
use conductor.Ingest.Processor.{ProductProcessResult}
use conductor.State.Records.{RunRecord}
use conductor.State.Store.{Store}
use conductor.Api.Context.{Context}

-- `OnExecute` may be nil, and may act on the store; so may be the store itself.
pub record Executor (S : Type 0) : Type 0 where
  pub store : Option (Store S)
  pub product_limit : ℤ
  pub on_execute :
      Option (Context → RunRecord → List ProductProcessResult → S → Result (Unit {0}) × S)

abbrev pub err_run_not_found : String
err_run_not_found = "run not found"

abbrev pub is_enqueued_result : ProductProcessResult → Bool
is_enqueued_result r = is_enqueued r.disposition

module _ {S : Type 0} where
  abbrev call_hook :
      Option (Context → RunRecord → List ProductProcessResult → S → Result (Unit {0}) × S)
      → Context
      → RunRecord
      → List ProductProcessResult
      → S
      → Result (Unit {0}) × S
  call_hook none ctx run products s = (ok tt, s)
  call_hook (some hook) ctx run products s = hook ctx run products s

  abbrev with_products :
      Executor S
      → Context
      → RunRecord
      → Result (List ProductProcessResult)
      → S
      → Result (Unit {0}) × S
  with_products e ctx run (err m) s = (err (concat "list run products failed: " m), s)
  with_products e ctx run (ok products) s =
      call_hook e.on_execute ctx run (keep is_enqueued_result products) s

  abbrev with_run :
      Executor S
      → Store S
      → Context
      → String
      → Result (Option RunRecord)
      → S
      → Result (Unit {0}) × S
  with_run e store ctx run_id (err m) s = (err (concat "get run failed: " m), s)
  with_run e store ctx run_id (ok none) s = (err err_run_not_found, s)
  with_run e store ctx run_id (ok (some run)) s =
      with_products e ctx run
        (store.list_run_products run_id (pos (positive_or 100000 e.product_limit)) s) s

  abbrev with_store :
      Executor S → Option (Store S) → Context → String → ℕ → S → Result (Unit {0}) × S
  with_store e none ctx run_id tenant_id s = (err "store is nil", s)
  with_store e (some store) ctx run_id tenant_id s =
      if run_id == ""
      then (err "runID is required", s)
      else if tenant_id == 0
      then (err "tenantID is required", s)
      else with_run e store ctx run_id (store.get_run tenant_id run_id s) s

  unfoldable pub execute : Executor S → Context → String → ℕ → S → Result (Unit {0}) × S
  execute e ctx run_id tenant_id s = with_store e e.store ctx run_id tenant_id s
