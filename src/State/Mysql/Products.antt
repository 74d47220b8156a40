-- ===== src/State/Mysql/Products.antt =====
-- The results of a run in the database: one for each product key.
use conductor.Prelude.{
  ap, ◌∙◌, sym, String, Bool, true, false, ◌≡◌, refl, Bool-cases, Result-cases, inl, inr, List, [],
  ◌∷◌, map, Result, ok, err, arith, eq_iff, All,
}
use conductor.Prelude.Equality.{◌==◌, string_instance}
use conductor.Prelude.Sets.{AreDistinct}
use conductor.Ingest.Processor.{ProductProcessResult}
use conductor.State.Rows.{disposition_text, Codec}
use conductor.State.Mysql.{
  insert_into_products, product_values, insert_product, exec_encoded, mysql_insert_run_products,
}
use conductor.Sql.{SqlValue, text, Database}

-- The primary key of the results: a run id and a product key.
pub record KeepsKeys {S T : Type 0} (db : Database S T) : Type 0 where
  pub holds : S → String → String → Bool
  pub inserted :
      (run_id key : String) (columns : List SqlValue) (s : S)
      → (db.exec insert_into_products (text run_id ∷ text key ∷ columns) s).0 ≡ ok tt
      → holds (db.exec insert_into_products (text run_id ∷ text key ∷ columns) s).1 run_id key
        ≡ true
  pub kept :
      (run_id key other : String) (columns : List SqlValue) (s : S)
      → holds s run_id other ≡ true
      → holds (db.exec insert_into_products (text run_id ∷ text key ∷ columns) s).1 run_id other
        ≡ true
  pub refused :
      (run_id key : String) (columns : List SqlValue) (s : S)
      → holds s run_id key ≡ true
      → (m : String) × ((db.exec insert_into_products (text run_id ∷ text key ∷ columns) s).0
          ≡ err m)

abbrev pub product_keys : List ProductProcessResult → List String
product_keys ps = map (λ p. p.product_key) ps

module _ (c : Codec) {S T : Type 0} (db : Database S T) (k : KeepsKeys db) (run_id : String) where
  -- One row: it was not there, it is there now, and so are the others.
  record IsInserted (p : ProductProcessResult) (s s' : S) : Type 0 where
    new : k.holds s run_id p.product_key ≡ false
    there : k.holds s' run_id p.product_key ≡ true
    others : (other : String) → k.holds s run_id other ≡ true → k.holds s' run_id other ≡ true

  encoded-IsInserted :
      (p : ProductProcessResult) (s : S) (m : Result String)
      → (exec_encoded c db insert_into_products (product_values c db run_id p) m s).0 ≡ ok tt
      → IsInserted p s (exec_encoded c db insert_into_products (product_values c db run_id p) m s).1
  encoded-IsInserted p s (err m) done = cc
  encoded-IsInserted p s (ok w) done =
      let columns : List SqlValue =
        text (disposition_text p.disposition) ∷ text p.reason ∷ text p.hash ∷ text w ∷ [] in
      record {
        new = elim (Bool-cases (k.holds s run_id p.product_key)) [
          | inr new ↦ new
          | inl old ↦
              let (m, e) = k.refused run_id p.product_key columns s old in
              absurd (ground (arith, e, done))
        ];
        there = k.inserted run_id p.product_key columns s done;
        others = λ other old. k.kept run_id p.product_key other columns s old;
      }

  insert_product-IsInserted :
      (p : ProductProcessResult) (s : S)
      → (insert_product c db run_id p s).0 ≡ ok tt
      → IsInserted p s (insert_product c db run_id p s).1
  unfolding insert_product
  insert_product-IsInserted p s done = encoded-IsInserted p s (c.marshal_issues p.issues) done

  insert_products-step :
      (p : ProductProcessResult) (ps : List ProductProcessResult) (s : S)
      → (mysql_insert_run_products c db run_id (p ∷ ps) s).0 ≡ ok tt
      → ((insert_product c db run_id p s).0 ≡ ok tt)
        × (mysql_insert_run_products c db run_id (p ∷ ps) s
            ≡ mysql_insert_run_products c db run_id ps (insert_product c db run_id p s).1)
  unfolding mysql_insert_run_products
  insert_products-step p ps s done = elim (Result-cases (insert_product c db run_id p s).0) [
    | inr (m, e) ↦ absurd (ground (arith, e, done))
    | inl (u, e) ↦ (e, rw (e, mysql_insert_run_products) refl)
  ]

  -- A key that is in the table already is none of those that a successful call inserts.
  insert_products-new :
      (ps : List ProductProcessResult) (key : String) (s : S)
      → (mysql_insert_run_products c db run_id ps s).0 ≡ ok tt
      → k.holds s run_id key ≡ true
      → All (λ j. (j == key) ≡ false) (product_keys ps)
  insert_products-new [] key s done old = tt
  insert_products-new (p ∷ ps) key s done old =
      let (first, step) = insert_products-step p ps s done in
      let one = insert_product-IsInserted p s first in
      (
        ground (arith, one.new, old, eq_iff p.product_key key),
        insert_products-new ps key (insert_product c db run_id p s).1
            (ap (λ (q : Result (Unit {0}) × S). q.0) (sym step) ∙ done) (one.others key old),
      )

  -- The results of a run are inserted without an error only if no product key stands among them twice.
  pub mysql_insert_run_products-AreDistinct :
      (ps : List ProductProcessResult) (s : S)
      → (mysql_insert_run_products c db run_id ps s).0 ≡ ok tt
      → AreDistinct (product_keys ps)
  mysql_insert_run_products-AreDistinct [] s done = tt
  mysql_insert_run_products-AreDistinct (p ∷ ps) s done =
      let (first, step) = insert_products-step p ps s done in
      let one = insert_product-IsInserted p s first in
      let s' = (insert_product c db run_id p s).1 in
      let rest = ap (λ (q : Result (Unit {0}) × S). q.0) (sym step) ∙ done in
      (
        insert_products-new ps p.product_key s' rest one.there,
        mysql_insert_run_products-AreDistinct ps s' rest,
      )
