-- ===== src/Tests/Runs.antt =====
-- Tests of the handlers that show runs.
use conductor.Prelude.{
  ℕ, ◌≤◌, ◌<◌, pos, negsuc, ◌≡◌, refl, ◌⊎◌, true, false, some, List, [], ◌∷◌, keep,
}
use conductor.Prelude.Equality.{string_instance}
use conductor.State.Records.{RunRecord}
use conductor.State.Memory.{memory_store, values, newest_first, of_tenant}
use conductor.State.Memory.Listing.{IsPage}
use conductor.Api.Context.{background, tenant_id}
use conductor.Api.Http.{Request, json_text}
use conductor.Api.Middleware.Tenant.{parse_uint64, parse_digits}
use conductor.Api.Runs.{RunsEncoder, atoi, page_size, runs_handler, run_detail_handler}
use conductor.Api.Runs.Isolation.{
  has_bad_id, IsForeign, ShowsRun, runs_handler-IsPage, run_detail_handler-get_run,
}
use conductor.Tests.Data.{shuffle, shuffle-Shuffles, clock, post, shop}

abbrev encoder : RunsEncoder
encoder = record {
  failure = λ members. "{}";
  runs = λ runs. "[]";
  detail = λ run products. run.run_id;
}

-- A request of tenant 7 for the run "r1".
abbrev get_one : Request
get_one = record post {
  method = "GET";
  path = "/v1/debug/runs/r1";
  query = ("limit", "5") ∷ [];
  context = record background { tenant_value = some 7 };
}

atoi_signed : atoi "-12" ≡ some (negsuc 11)
unfolding atoi parse_uint64 parse_digits
atoi_signed = refl

page_size_capped : page_size 50 200 "1000" ≡ 200
unfolding page_size atoi parse_uint64 parse_digits
page_size_capped = refl

runs_handler-IsPage_example :
    (runs : List RunRecord) × (limit : ℕ) × (runs_handler encoder
        (memory_store shuffle)
        clock
        get_one
        shop
      ≡ (json_text 200 (encoder.runs runs), shop))
    × IsPage newest_first
        (keep (of_tenant (tenant_id get_one.context)) (values shop.runs))
        (pos limit)
        runs
    × (0 < limit)
    × (limit ≤ 200)
runs_handler-IsPage_example =
    runs_handler-IsPage encoder shuffle clock get_one shop shuffle-Shuffles refl

run_detail_handler-get_run_example :
    ((run_detail_handler encoder (memory_store shuffle) clock get_one shop).1 ≡ shop)
    × (((has_bad_id get_one ≡ true)
          × ((run_detail_handler encoder (memory_store shuffle) clock get_one shop).0.status ≡ 400))
        ⊎ ((has_bad_id get_one ≡ false)
            × IsForeign get_one shop
            × ((run_detail_handler encoder (memory_store shuffle) clock get_one shop).0.status
                ≡ 404))
        ⊎ ((has_bad_id get_one ≡ false)
            × ShowsRun encoder get_one shop
                (run_detail_handler encoder (memory_store shuffle) clock get_one shop).0))
run_detail_handler-get_run_example =
    run_detail_handler-get_run encoder shuffle clock get_one shop shuffle-Shuffles refl
