-- ===== src/Tests/Mysql.antt =====
-- Tests of the store in the database, with small databases that keep one table each.
use conductor.Prelude.{
  ℕ, ◌≤◌, String, Bool, ◌≡◌, refl, sym, none, some, Option, List, [], ◌∷◌, map, Result, ok, err,
  arith, eq_iff, pos, if◌then◌else◌, ltb, take, length, length-take-le, keep, Bool-cases, inl, inr,
  ◌&&◌, All, ap,
}
use mathlib.Core.Path.{subst}
use Prim.Native.Nat.{◌/◌, ◌*◌}
use conductor.Prelude.Equality.{◌==◌, string_instance, nat_instance}
use conductor.Prelude.Sets.{contains, AreDistinct}
use conductor.State.Records.{RunRecord, RunClaim}
use conductor.State.Rows.{Codec, run_values, scan_run, scan_product, scan_rows}
use conductor.State.Mysql.{
  select_run, insert_product, mysql_insert_run, mysql_get_run, mysql_insert_run_products,
  mysql_list_run_products, mysql_claim_runs, mark_claims,
}
use conductor.State.Mysql.Runs.{KeepsRunRow, column, mysql_get_run-insert}
use conductor.State.Mysql.Queue.{KeepsQueue, Waits, claim_row, taken_over}
use conductor.State.Mysql.Claims.{Leaves, mysql_claim_runs-Leaves}
use conductor.State.Mysql.Products.{KeepsKeys, product_keys, mysql_insert_run_products-AreDistinct}
use conductor.Sql.{SqlValue, null, num, text, moment, Row, Database}
use conductor.Api.Context.{background}
use conductor.Execute.{execute, is_enqueued_result}
use conductor.Execute.Paging.{LimitsProducts, SqlHook, sql_executor, execute-le_2000}
use conductor.Tests.Data.{run_one, mug_result}

abbrev as_text : SqlValue → Result String
as_text (text v) = ok v
as_text v = err "not a text"

abbrev as_uint : SqlValue → Result ℕ
as_uint (num n) = ok n
as_uint v = err "not a number"

abbrev as_time : SqlValue → Result ℕ
as_time (moment t) = ok t
as_time v = err "not a time"

-- A database that answers nothing and keeps its state.
abbrev silent : (S : Type 0) → Database S S
silent S = record {
  exec = λ statement args s. (ok tt, s);
  query = λ statement args s. ok ([], none);
  begin_tx = λ s. ok s;
  tx_exec = λ statement args s. (ok tt, s);
  tx_query = λ statement args s. ok ([], none);
  commit = λ tx s. (ok tt, tx);
  rollback = λ tx s. s;
  to_text = as_text;
  to_uint = as_uint;
  to_time = as_time;
}

abbrev codec : Codec
codec = record {
  marshal_warnings = λ w. ok "{}";
  unmarshal_warnings = λ v. record { unknown_keys = [] };
  marshal_issues = λ issues. ok "[]";
  unmarshal_issues = λ v. [];
}

-- The table of runs, with room for one row.
abbrev seconds : ℕ → ℕ
seconds t = t / 1000000000 * 1000000000

abbrev rows_of : ℕ → Row → List Row
rows_of t (id ∷ (num u ∷ row)) = if u == t then (id ∷ (num u ∷ row)) ∷ [] else []
rows_of t row = []

abbrev select_of : List SqlValue → Row → List Row
select_of (num t ∷ args) row = rows_of t row
select_of args row = []

abbrev one_row : Database Row Row
one_row = record (silent Row) {
  exec = λ statement args s. (ok tt, map (column (λ v. v) seconds) args);
  query = λ statement args s. ok (select_of args s, none);
}

row_selected :
    (t u : ℕ) (id : String) (row : Row)
    → one_row.query select_run (num t ∷ text id ∷ []) (text id ∷ (num u ∷ row))
      ≡ ok (if u == t then (text id ∷ (num u ∷ row)) ∷ [] else [], none)
row_selected t u id row = ground arith

run_one-KeepsRunRow : KeepsRunRow (λ v. v) seconds codec one_row run_one
run_one-KeepsRunRow = record {
  converts = record { texts = λ v. refl; uints = λ n. refl; times = λ t. refl };
  selects = λ id u feed status push v₁ v₂ v₃ v₄ v₅ json created t s s' done.
      let e : map (column (λ v. v) seconds) (
            text id
            ∷ num u
            ∷ feed
            ∷ status
            ∷ push
            ∷ v₁
            ∷ v₂
            ∷ v₃
            ∷ v₄
            ∷ v₅
            ∷ text json
            ∷ created
            ∷ [])
          ≡ s' =
        cc done in
      rw (← e) (row_selected t u _ _);
  decodes = λ w e. ground (arith, eq_iff w "");
}

run_one_inserted :
    mysql_insert_run codec one_row run_one []
    ≡ (ok tt, map (column (λ v. v) seconds) (run_values run_one "{}"))
unfolding mysql_insert_run
run_one_inserted = refl

mysql_get_run-insert_example :
    mysql_get_run codec one_row 7 run_one.run_id
      (map (column (λ v. v) seconds) (run_values run_one "{}"))
    ≡ ok (some (record run_one { created_at = seconds 100 }))
mysql_get_run-insert_example =
    mysql_get_run-insert (λ v. v) seconds codec one_row run_one run_one-KeepsRunRow 7 []
      (map (column (λ v. v) seconds) (run_values run_one "{}")) run_one_inserted

-- A queue with one run.
abbrev is_waiting : RunRecord → Bool
is_waiting r = r.status == "has_changes" && r.push_triggered

abbrev claim_of : RunRecord → RunClaim
claim_of r = record { run_id = r.run_id; tenant_id = r.tenant_id }

abbrev claimed_of : List SqlValue → RunRecord → List RunClaim
claimed_of (num n ∷ args) r = if is_waiting r && ltb 0 n then claim_of r ∷ [] else []
claimed_of args r = []

abbrev marked_by : List SqlValue → RunRecord → RunRecord
marked_by (text id ∷ (num t ∷ args)) r =
    if r.run_id == id && (r.tenant_id == t && r.status == "has_changes")
    then record r { status = "processing" }
    else r
marked_by args r = r

abbrev queue : Database RunRecord RunRecord
queue = record (silent RunRecord) {
  tx_exec = λ statement args r. (ok tt, marked_by args r);
  tx_query = λ statement args r. ok (map claim_row (claimed_of args r), none);
}

abbrev only_run : RunRecord → String → Option RunRecord
only_run r id = if r.run_id == id then some r else none

claimed_of-Waits :
    (n : ℕ) (r : RunRecord)
    → All (λ cl. Waits (only_run r cl.run_id) cl) (claimed_of (num n ∷ []) r)
      × (length (claimed_of (num n ∷ []) r) ≤ n)
claimed_of-Waits n r = elim (Bool-cases (is_waiting r)) [
  | inr idle ↦ rw idle (tt, omega arith)
  | inl waits ↦ elim (Bool-cases (ltb 0 n)) [
    | inr empty ↦ rw (waits, empty) (tt, omega arith)
    | inl room ↦
        rw (waits, room)
          (
            (
              record {
                run = r;
                found = ground (arith, eq_iff r.run_id r.run_id);
                own = refl;
                status = ground (arith, eq_iff r.status "has_changes");
                pushed = ground arith;
              },
              tt,
            ),
            ground arith,
          )
  ]
]

marked_by-taken_over :
    (cl : RunClaim) (r : RunRecord) (id : String)
    → only_run (marked_by (text cl.run_id ∷ num cl.tenant_id ∷ []) r) id
      ≡ (if cl.run_id == id then taken_over cl.tenant_id (only_run r id) else only_run r id)
marked_by-taken_over cl r id =
    ground (arith, eq_iff r.run_id cl.run_id, eq_iff cl.run_id id, eq_iff r.run_id id)

queue-KeepsQueue : KeepsQueue codec queue
queue-KeepsQueue = record {
  converts = record { texts = λ v. refl; uints = λ n. refl; times = λ t. refl };
  runs = only_run;
  tx_runs = only_run;
  begins = λ s tx id begun. let e : s ≡ tx = cc begun in ap (λ r. only_run r id) (sym e);
  selects = λ n tx rows failure shown.
      let e : map claim_row (claimed_of (num n ∷ []) tx) ≡ rows = cc shown in
      (claimed_of (num n ∷ []) tx, sym e, (claimed_of-Waits n tx).0, (claimed_of-Waits n tx).1);
  updates = λ cl tx id done. marked_by-taken_over cl tx id;
  commits = λ tx s id done. refl;
  fails = λ tx s m failed. inl (cc failed);
  rolls_back = λ tx s id. refl;
}

mysql_claim_runs-Leaves_example :
    Leaves codec queue queue-KeepsQueue 10 run_one (mysql_claim_runs codec queue (pos 0) run_one)
mysql_claim_runs-Leaves_example =
    mysql_claim_runs-Leaves codec queue queue-KeepsQueue (pos 0) run_one

-- The call claims the run.
run_one_claimed :
    mysql_claim_runs codec queue (pos 0) run_one
    ≡ (ok (claim_of run_one ∷ []), record run_one { status = "processing" })
unfolding mysql_claim_runs mark_claims scan_rows
run_one_claimed = refl

-- The results of one run, by their keys.
abbrev key_of : List SqlValue → String
key_of (id ∷ (text key ∷ columns)) = key
key_of row = ""

abbrev keys : Database (List String) (List String)
keys = record (silent (List String)) {
  exec = λ statement args s.
      if contains (key_of args) s
      then (err "Error 1062: Duplicate entry", s)
      else (ok tt, key_of args ∷ s);
}

keys-KeepsKeys : KeepsKeys keys
unfolding contains
keys-KeepsKeys = record {
  holds = λ s run_id key. contains key s;
  inserted = λ run_id key columns s done. ground (arith, eq_iff key key);
  kept = λ run_id key other columns s old. ground (arith, old);
  refused = λ run_id key columns s old. ("Error 1062: Duplicate entry", ground (arith, old));
}

two_inserted :
    (mysql_insert_run_products codec keys "r1"
      (mug_result ∷ record mug_result { product_key = "cup" } ∷ [])
      []).0
    ≡ ok tt
unfolding mysql_insert_run_products insert_product contains
two_inserted = refl

mysql_insert_run_products-AreDistinct_example :
    AreDistinct (product_keys (mug_result ∷ record mug_result { product_key = "cup" } ∷ []))
mysql_insert_run_products-AreDistinct_example =
    mysql_insert_run_products-AreDistinct codec keys keys-KeepsKeys "r1"
      (mug_result ∷ record mug_result { product_key = "cup" } ∷ []) [] two_inserted

-- Runs and results as fixed rows.
abbrev product_row : Row
product_row = text "mug" ∷ text "enqueued" ∷ null ∷ text "document" ∷ null ∷ []

abbrev limit_of : List SqlValue → ℕ
limit_of (id ∷ (num n ∷ args)) = n
limit_of args = 0

abbrev pages : Database (List Row) (List Row)
pages = record (silent (List Row)) {
  query = λ statement args s.
      if statement == select_run
      then ok (map (column (λ v. v) seconds) (run_values run_one "{}") ∷ [], none)
      else ok (take (limit_of args) s, none);
}

pages-LimitsProducts : LimitsProducts pages
pages-LimitsProducts = record {
  limits = λ run_id n s rows failure shown.
      let e : take n s ≡ rows = cc shown in subst (λ l. length l ≤ n) e (length-take-le n s);
}

abbrev refusing : SqlHook (List Row)
refusing = λ ctx run products s. (err "refused", s)

run_one_read :
    mysql_get_run codec pages 7 "r1" (product_row ∷ [])
    ≡ ok (some (record run_one { created_at = seconds 100 }))
unfolding mysql_get_run scan_run
run_one_read = refl

page_read :
    mysql_list_run_products codec pages "r1" (pos 100000) (product_row ∷ [])
    ≡ ok (record mug_result { reason = "" } ∷ [])
unfolding mysql_list_run_products scan_rows scan_product
page_read = refl

execute-le_2000_example :
    (execute (sql_executor codec pages (pos 0) refusing) background "r1" 7 (product_row ∷ [])
      ≡ refusing background
          (record run_one { created_at = seconds 100 })
          (keep is_enqueued_result (record mug_result { reason = "" } ∷ []))
          (product_row ∷ []))
    × (length (keep is_enqueued_result (record mug_result { reason = "" } ∷ [])) ≤ 2000)
execute-le_2000_example =
    execute-le_2000 codec pages pages-LimitsProducts (pos 0) refusing background "r1" 7
      (product_row ∷ []) (record run_one { created_at = seconds 100 })
      (record mug_result { reason = "" } ∷ []) (λ e. ground (arith, eq_iff "r1" ""))
      (λ e. omega arith) run_one_read page_read
