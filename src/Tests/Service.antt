-- ===== src/Tests/Service.antt =====
-- Tests of the service as a whole.
use conductor.Prelude.{◌≡◌, refl, true, false, none, some, pos, if◌then◌else◌}
use conductor.Prelude.Equality.{string_instance}
use conductor.Prelude.Maps.{lookup, insert}
use conductor.Prelude.Sorting.{sort_by}
use conductor.State.Memory.{
  MemoryStore, memory_store, claim_runs, candidates, mark_claimed, complete_run, fail_run, get_run,
  list_run_products,
}
use conductor.Worker.{tick, with_defaults, process_claims}
use conductor.Execute.{execute}
use conductor.State.Memory.Claims.{is_claimed}
use conductor.Api.Http.{bare}
use conductor.Api.Runs.{RunsEncoder}
use conductor.Api.Server.{Web, serve}
use conductor.Api.Server.Serving.{memory_server}
use conductor.Service.{Actions, request, pass, none_yet, and_then, main_pass}
use conductor.Service.Pass.{completed_run, lookup-main_pass}
use conductor.Service.Whole.{Actions-claim_once}
use conductor.Tests.Data.{host, shuffle, shuffle-Shuffles, shop, shop-IsKeyed, clock, post}
use conductor.Tests.Api.{encoder, intake, jwt}
use conductor.Tests.Bulk.{gzip}

abbrev web : Web
web = record {
  redirect = λ r. none;
  not_found = bare 404;
  healthy = λ backend with_db. backend;
  unhealthy = λ backend message. message;
}

abbrev runs_encoder : RunsEncoder
runs_encoder = record { failure = λ members. "{}"; runs = λ rs. "[]"; detail = λ run ps. "{}" }

-- A pass, an upsert, and a pass after it.
abbrev passed : MemoryStore
passed = (main_pass (memory_store shuffle) shop).1

abbrev upserted : MemoryStore
upserted =
    (serve host web gzip encoder runs_encoder jwt (memory_server shuffle "prod" (some "key")) intake
      clock post passed).1

abbrev passed_again : MemoryStore
passed_again = (main_pass (memory_store shuffle) upserted).1

fresh_run : lookup "run_1" passed.runs ≡ none
unfolding lookup main_pass tick with_defaults memory_store claim_runs candidates mark_claimed
    process_claims execute complete_run fail_run insert sort_by get_run list_run_products
fresh_run = refl

upserted_and_passed :
    Actions host web gzip encoder runs_encoder jwt shuffle "prod" (some "key") passed passed_again
upserted_and_passed = and_then (and_then none_yet (request intake clock post fresh_run)) pass

r2_claimed : is_claimed "r2" (claim_runs shuffle (pos 10) shop).0 ≡ true
unfolding claim_runs candidates sort_by
r2_claimed = refl

Actions-claim_once_example : is_claimed "r2" (claim_runs shuffle (pos 10) passed_again).0 ≡ false
Actions-claim_once_example =
    Actions-claim_once host web gzip encoder runs_encoder jwt shuffle "prod" (some "key") "r2" shop
      passed_again shuffle-Shuffles shop-IsKeyed r2_claimed upserted_and_passed

no_empty_id : lookup "" shop.runs ≡ none
unfolding lookup
no_empty_id = refl

lookup-main_pass_example : lookup "r2" passed.runs ≡ (
    if is_claimed "r2" (claim_runs shuffle (pos 10) shop).0
    then completed_run (lookup "r2" shop.runs)
    else lookup "r2" shop.runs)
lookup-main_pass_example =
    lookup-main_pass shuffle shop "r2" shuffle-Shuffles shop-IsKeyed no_empty_id
