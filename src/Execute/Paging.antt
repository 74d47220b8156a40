-- ===== src/Execute/Paging.antt =====
-- What `Execute` hands to the hook, over the database.
use conductor.Prelude.{
  ℕ, ◌≤◌, ℤ, pos, positive_or, String, ◌≡◌, ◌≢◌, Option, none, some, List, [], ◌∷◌, Result, ok,
  bind-eq-ok, arith, eq_iff, nat_eq_iff, length, keep, Bool,
}
use conductor.Prelude.Equality.{string_instance}
use conductor.Ingest.Processor.{ProductProcessResult}
use conductor.State.Records.{RunRecord}
use conductor.State.Rows.{Codec, scan_product, scan_rows, at_most}
use conductor.State.Mysql.{select_products, mysql_list_run_products, mysql_get_run, mysql_store}
use conductor.Sql.{num, text, Row, Database}
use conductor.Api.Context.{Context}
use conductor.Execute.{Executor, execute, is_enqueued_result}

-- `LIMIT`
pub record LimitsProducts {S T : Type 0} (db : Database S T) : Type 0 where
  pub limits :
      (run_id : String) (n : ℕ) (s : S) (rows : List Row) (failure : Option String)
      → db.query select_products (text run_id ∷ num n ∷ []) s ≡ ok (rows, failure)
      → length rows ≤ n

length-scan_rows :
    {A : Type 0} (scan : Row → Result A) (rows : List Row) (failure : Option String)
    (as_list : List A)
    → scan_rows scan rows failure ≡ ok as_list
    → length as_list ≡ length rows
unfolding scan_rows
length-scan_rows scan [] none as_list e = ground (arith, e)
length-scan_rows scan [] (some m) as_list e = cc
length-scan_rows scan (row ∷ rows) failure as_list e =
    let (a, scanned, e₁) = bind-eq-ok (scan row) _ e in
    let (rest, more, e₂) = bind-eq-ok (scan_rows scan rows failure) _ e₁ in
    ground (arith, e₂, length-scan_rows scan rows failure rest more)

length-keep-le : {A : Type 0} (p : A → Bool) (xs : List A) → length (keep p xs) ≤ length xs
length-keep-le p [] = omega arith
length-keep-le p (x ∷ xs) = ground (arith, length-keep-le p xs)

at_most-le : (most n : ℕ) → at_most most n ≤ most
at_most-le most n = ground arith

abbrev pub SqlHook : Type 0 → Type 0
SqlHook S = Context → RunRecord → List ProductProcessResult → S → Result (Unit {0}) × S

abbrev pub sql_executor : {S T : Type 0} → Codec → Database S T → ℤ → SqlHook S → Executor S
sql_executor c db limit hook = record {
  store = some (mysql_store c db);
  product_limit = limit;
  on_execute = some hook;
}

module _ (c : Codec) {S T : Type 0} (db : Database S T) (k : LimitsProducts db) where
  length-list_run_products-le :
      (run_id : String) (limit : ℤ) (s : S) (page : List ProductProcessResult)
      → mysql_list_run_products c db run_id limit s ≡ ok page
      → length page ≤ 2000
  unfolding mysql_list_run_products
  length-list_run_products-le run_id limit s page e =
      let n = at_most 2000 (positive_or 200 limit) in
      let ((rows, failure), found, scanned) =
        bind-eq-ok (db.query select_products (text run_id ∷ num n ∷ []) s) _ e in
      omega (
        arith,
        length-scan_rows (scan_product c db) rows failure page scanned,
        k.limits run_id n s rows failure found,
        at_most-le 2000 (positive_or 200 limit),
      )

  -- Whatever limit the executor has, 100000 by default, over the database the hook receives the enqueued
  -- ones of the results that are listed, at most 2000 of them, however many the run has.
  pub execute-le_2000 :
      (limit : ℤ) (hook : SqlHook S) (ctx : Context) (id : String) (t : ℕ) (s : S) (run : RunRecord)
      (page : List ProductProcessResult)
      → id ≢ ""
      → t ≢ 0
      → mysql_get_run c db t id s ≡ ok (some run)
      → mysql_list_run_products c db id (pos (positive_or 100000 limit)) s ≡ ok page
      → (execute (sql_executor c db limit hook) ctx id t s
          ≡ hook ctx run (keep is_enqueued_result page) s)
        × (length (keep is_enqueued_result page) ≤ 2000)
  unfolding execute mysql_store
  execute-le_2000 limit hook ctx id t s run page named owned found listed = (
    ground (arith, eq_iff id "", nat_eq_iff t 0, found, listed),
    omega (
      arith,
      length-keep-le is_enqueued_result page,
      length-list_run_products-le id (pos (positive_or 100000 limit)) s page listed,
    ),
  )
