-- ===== src/Api/Runs.antt =====
-- internal/api/handlers/debug_runs.go
pub mod Isolation
use Prim.Native.Char.{code}
use conductor.Prelude.{
  ℕ, zero, suc, ℤ, pos, negsuc, positive_or, String, Bool, true, false, ◌||◌, Option, none, some,
  List, [], ◌∷◌, Result, ok, err, ltb, nat_eq, if◌then◌else◌,
}
use conductor.Prelude.Equality.{◌==◌, string_instance}
use conductor.Prelude.Text.{trim_space}
use conductor.Ingest.Processor.{ProductProcessResult}
use conductor.State.Records.{RunRecord}
use conductor.State.Store.{Store}
use conductor.Api.Context.{tenant_id}
use conductor.Api.Http.{Request, Response, Clock, Handler, query_value, bare, json_text}
use conductor.Api.Middleware.Tenant.{parse_uint64}
use conductor.Api.Middleware.Auth.{strip_prefix}

-- The encoder of the responses: an error's members, a list of runs, and a run with its results.
pub record RunsEncoder : Type 0 where
  pub failure : List (String × String) → String
  pub runs : List RunRecord → String
  pub detail : RunRecord → List ProductProcessResult → String

abbrev negated : ℕ → ℤ
negated zero = pos zero
negated (suc n) = negsuc n

abbrev in_int_range : Option ℕ → Option ℤ
in_int_range none = none
in_int_range (some n) = if ltb n 9223372036854775808 then some (pos n) else none

abbrev in_negative_range : Option ℕ → Option ℤ
in_negative_range none = none
in_negative_range (some n) = if ltb 9223372036854775808 n then none else some (negated n)

-- `strconv.Atoi` on a machine with 64 bits: a sign may stand in front of the digits.
unfoldable pub atoi : String → Option ℤ
unfolding parse_uint64
atoi String.[] = none
atoi (String.◌∷◌ c v) =
    if nat_eq (code c) b'-'
    then in_negative_range (parse_uint64 v)
    else if nat_eq (code c) b'+'
    then in_int_range (parse_uint64 v)
    else in_int_range (parse_uint64 (String.◌∷◌ c v))

abbrev or_fallback : ℕ → Option ℤ → ℤ
or_fallback fallback none = pos fallback
or_fallback fallback (some n) = n

-- The page size: the query's, or else the default, at most the maximum.
unfoldable pub page_size : ℕ → ℕ → String → ℕ
page_size fallback most v =
    let n =
      positive_or fallback (if v == "" then pos fallback else or_fallback fallback (atoi v)) in
    if ltb most n then most else n

unfoldable pub has_slash : String → Bool
has_slash String.[] = false
has_slash (String.◌∷◌ c v) = nat_eq (code c) b'/' || has_slash v

abbrev or_whole : String → Option String → String
or_whole path none = path
or_whole path (some rest) = rest

-- The run's id in the path.
unfoldable pub run_id_of : String → String
run_id_of path = trim_space (or_whole path (strip_prefix "/v1/debug/runs/" path))

module _ (encoder : RunsEncoder) where
  abbrev refused : ℕ → String → String → Response
  refused status error message =
      json_text status (encoder.failure (("error", error) ∷ ("message", message) ∷ []))

  abbrev listed : Result (List RunRecord) → Response
  listed (err m) = refused 500 "list_runs_failed" m
  listed (ok runs) = json_text 200 (encoder.runs runs)

  abbrev detailed : RunRecord → Result (List ProductProcessResult) → Response
  detailed run (err m) = refused 500 "list_run_products_failed" m
  detailed run (ok products) = json_text 200 (encoder.detail run products)

module _ (encoder : RunsEncoder) {S : Type 0} (store : Store S) where
  unfoldable pub runs_handler : Handler S
  runs_handler clock r s =
      if r.method == "GET"
      then (
        listed encoder (
            store.list_runs (tenant_id r.context) (pos (page_size 50 200 (query_value "limit" r)))
              s),
        s,
      )
      else (bare 405, s)

  abbrev pub found_run : Request → String → Result (Option RunRecord) → S → Response × S
  found_run r id (err m) s = (refused encoder 500 "get_run_failed" m, s)
  found_run r id (ok none) s = (refused encoder 404 "not_found" "run not found", s)
  found_run r id (ok (some run)) s = (
    detailed encoder run
        (store.list_run_products id (pos (page_size 500 2000 (query_value "limit" r))) s),
    s,
  )

  unfoldable pub run_detail_handler : Handler S
  run_detail_handler clock r s =
      let id = run_id_of r.path in
      if r.method == "GET"
      then (if id == "" || has_slash id
          then (refused encoder 400 "invalid_run_id" "run_id missing or invalid", s)
          else found_run r id (store.get_run (tenant_id r.context) id s) s)
      else (bare 405, s)
