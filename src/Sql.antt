-- ===== src/Sql.antt =====
-- What the program uses of `database/sql`: statements with their arguments, rows, transactions and the
-- conversions of `Scan`. The driver and the database behind it are a parameter, over the states of the
-- database and of an open transaction.
use conductor.Prelude.{ℕ, String, Bool, Option, none, some, List, [], ◌∷◌, Result, ok, err, ◌>>=◌}

-- An argument of a statement, or a column of a row. Moments are nanoseconds.
pub data SqlValue : Type 0 where
  null : SqlValue
  num : ℕ → SqlValue
  text : String → SqlValue
  flag : Bool → SqlValue
  moment : ℕ → SqlValue

abbrev pub Row : Type 0
Row = List SqlValue

-- The rows of a query, and the error that ends them, if any.
abbrev pub Rows : Type 0
Rows = List Row × Option String

pub record Database (S : Type 0) (T : Type 0) : Type 0 where
  pub exec : String → List SqlValue → S → Result (Unit {0}) × S
  pub query : String → List SqlValue → S → Result Rows
  pub begin_tx : S → Result T
  pub tx_exec : String → List SqlValue → T → Result (Unit {0}) × T
  pub tx_query : String → List SqlValue → T → Result Rows
  pub commit : T → S → Result (Unit {0}) × S
  pub rollback : T → S → S
  pub to_text : SqlValue → Result String
  pub to_uint : SqlValue → Result ℕ
  pub to_time : SqlValue → Result ℕ

-- The first row, as `QueryRowContext` keeps it: `none` is `sql.ErrNoRows`.
abbrev pub first_row : Rows → Result (Option Row)
first_row ([], some m) = err m
first_row ([], none) = ok none
first_row (row ∷ rows, failure) = ok (some row)

abbrev pub wrong_columns : String
wrong_columns = "sql: wrong number of destination arguments in Scan"

module _ {S T : Type 0} (db : Database S T) where
  abbrev pub query_row : String → List SqlValue → S → Result (Option Row)
  query_row statement args s = do rows ← db.query statement args s; first_row rows

  -- `Scan` into a string, a number, and their nullable kinds.
  abbrev pub scan_one : Row → Result String
  scan_one [] = err wrong_columns
  scan_one (v ∷ []) = db.to_text v
  scan_one (v ∷ (w ∷ row)) = err wrong_columns

  abbrev pub nullable_uint : SqlValue → Result (Option ℕ)
  nullable_uint null = ok none
  nullable_uint v = do n ← db.to_uint v; ok (some n)

  -- A null text, like a null byte slice, is taken as the empty one.
  abbrev pub nullable_text : SqlValue → Result String
  nullable_text null = ok ""
  nullable_text v = db.to_text v
