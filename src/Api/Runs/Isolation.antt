-- ===== src/Api/Runs/Isolation.antt =====
-- What a tenant sees of the runs in the store in memory.
use conductor.Prelude.{
  ℕ, ◌≤◌, ◌<◌, ℤ, pos, negsuc, zero, suc, if◌then◌else◌, ◌||◌, String, ◌≡◌, refl, ◌⊎◌, inl, inr,
  Bool, true, false, none, some, List, keep, ◌≢◌, nat_eq_iff, arith, Bool-cases, Option-cases, ltb,
  positive_or,
}
use conductor.Prelude.Equality.{◌==◌, nat_instance, string_instance}
use conductor.State.Records.{RunRecord}
use conductor.State.Memory.{
  MemoryStore, Shuffle, Shuffles, memory_store, values, newest_first, by_product_key, of_tenant,
  get_run, list_runs, list_run_products,
}
use conductor.Prelude.Maps.{lookup}
use conductor.Ingest.Processor.{ProductProcessResult}
use conductor.State.Memory.Views.{get_run-eq-some}
use conductor.State.Memory.Listing.{IsPage, products_of, list_runs-IsPage, list_run_products-IsPage}
use conductor.Api.Context.{tenant_id}
use conductor.Api.Http.{Request, Response, Clock, query_value, json_text}
use conductor.Api.Runs.{
  RunsEncoder, page_size, run_id_of, has_slash, runs_handler, run_detail_handler,
}

positive_or_bound : (fallback : ℕ) (n : ℤ) → 0 < fallback → 0 < positive_or fallback n
positive_or_bound fallback (pos zero) h = h
positive_or_bound fallback (pos (suc n)) h = omega arith
positive_or_bound fallback (negsuc n) h = h

page_size_bounds :
    (fallback most : ℕ) (v : String)
    → 0 < fallback
    → fallback ≤ most
    → (0 < page_size fallback most v) × (page_size fallback most v ≤ most)
unfolding page_size
page_size_bounds fallback most v least enough = cap _ (positive_or_bound fallback _ least)
  where
    cap :
        (n : ℕ)
        → 0 < n
        → (0 < (if ltb most n then most else n)) × ((if ltb most n then most else n) ≤ most)
    cap n h = (ground arith, ground arith)

-- The answer to a GET lists a page of the tenant's runs, newest first, of 1 to 200 entries.
pub runs_handler-IsPage :
    (encoder : RunsEncoder) (f : Shuffle) (clock : Clock) (r : Request) (s : MemoryStore)
    → Shuffles f
    → r.method ≡ "GET"
    → (runs : List RunRecord) × (limit : ℕ) × (runs_handler encoder (memory_store f) clock r s
        ≡ (json_text 200 (encoder.runs runs), s))
      × IsPage newest_first
          (keep (of_tenant (tenant_id r.context)) (values s.runs))
          (pos limit)
          runs
      × (0 < limit)
      × (limit ≤ 200)
unfolding runs_handler memory_store
runs_handler-IsPage encoder f clock r s shuffles get =
    let limit = page_size 50 200 (query_value "limit" r) in
    let (least, most) =
      page_size_bounds 50 200 (query_value "limit" r) (omega arith) (omega arith) in
    (
      list_runs f (tenant_id r.context) (pos limit) s,
      limit,
      rw get refl,
      list_runs-IsPage f (tenant_id r.context) (pos limit) s shuffles,
      least,
      most,
    )

-- The run is the one of the path, and the tenant's own.
pub record IsOwnRun (r : Request) (s : MemoryStore) (run : RunRecord) : Type 0 where
  pub found : lookup (run_id_of r.path) s.runs ≡ some run
  pub own : run.tenant_id ≡ tenant_id r.context

-- No run of the tenant's own has the id: there is none, or it is another tenant's.
abbrev pub IsForeign : Request → MemoryStore → Type 0
IsForeign r s =
    (lookup (run_id_of r.path) s.runs ≡ none)
    ⊎ ((run : RunRecord) × (lookup (run_id_of r.path) s.runs ≡ some run)
        × (run.tenant_id ≢ tenant_id r.context))

abbrev pub has_bad_id : Request → Bool
has_bad_id r = run_id_of r.path == "" || has_slash (run_id_of r.path)

-- The run and a page of its results, by their keys, of 1 to 2000 entries.
pub record ShowsRun (encoder : RunsEncoder) (r : Request) (s : MemoryStore) (resp : Response)
    : Type 0 where
  pub run : RunRecord
  pub own : IsOwnRun r s run
  pub page : List ProductProcessResult
  pub limit : ℕ
  pub shown : resp ≡ json_text 200 (encoder.detail run page)
  pub stored :
      IsPage by_product_key
        (products_of (lookup (run_id_of r.path) s.run_products))
        (pos limit)
        page
  pub least : 0 < limit
  pub most : limit ≤ 2000

IsForeign-missing :
    (r : Request) (s : MemoryStore)
    → get_run (tenant_id r.context) (run_id_of r.path) s ≡ none
    → IsForeign r s
unfolding get_run
IsForeign-missing r s e = elim (Option-cases (lookup (run_id_of r.path) s.runs)) [
  | inl missing ↦ inl missing
  | inr (run, found) ↦
      inr (run, found, ground (arith, e, found, nat_eq_iff run.tenant_id (tenant_id r.context)))
]

-- A GET for one run has one of three answers, and changes nothing: status 400, where the path has no id
-- or more than one; status 404, where no run has the id or its run is another tenant's; and status
-- 200 with the tenant's own run of that id and a page of the results that are stored for it.
pub run_detail_handler-get_run :
    (encoder : RunsEncoder) (f : Shuffle) (clock : Clock) (r : Request) (s : MemoryStore)
    → Shuffles f
    → r.method ≡ "GET"
    → ((run_detail_handler encoder (memory_store f) clock r s).1 ≡ s)
      × (((has_bad_id r ≡ true)
            × ((run_detail_handler encoder (memory_store f) clock r s).0.status ≡ 400))
          ⊎ ((has_bad_id r ≡ false)
              × IsForeign r s
              × ((run_detail_handler encoder (memory_store f) clock r s).0.status ≡ 404))
          ⊎ ((has_bad_id r ≡ false)
              × ShowsRun encoder r s (run_detail_handler encoder (memory_store f) clock r s).0))
unfolding run_detail_handler memory_store
run_detail_handler-get_run encoder f clock r s shuffles get =
    let id = run_id_of r.path in
    elim (Bool-cases (has_bad_id r)) [
      | inl bad ↦ (rw (get, bad) refl, inl (bad, rw (get, bad) refl))
      | inr named ↦ elim (Option-cases (get_run (tenant_id r.context) id s)) [
        | inl missing ↦ (
          rw (get, named, missing) refl,
          inr (inl (named, IsForeign-missing r s missing, rw (get, named, missing) refl)),
        )
        | inr (run, found) ↦
            let limit = page_size 500 2000 (query_value "limit" r) in
            let (least, most) =
              page_size_bounds 500 2000 (query_value "limit" r) (omega arith) (omega arith) in
            let (stored, own) = get_run-eq-some (tenant_id r.context) id s run found in
            (
              rw (get, named, found) refl,
              inr (
                  inr (
                    named,
                    record {
                      run = run;
                      own = record { found = stored; own = own };
                      page = list_run_products f id (pos limit) s;
                      limit = limit;
                      shown = rw (get, named, found) refl;
                      stored = list_run_products-IsPage f id (pos limit) s shuffles;
                      least = least;
                      most = most;
                    },
                  )),
            )
      ]
    ]
