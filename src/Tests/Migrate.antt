-- ===== src/Tests/Migrate.antt =====
-- Tests of the migrations, with a database that keeps the names and the scripts.
use conductor.Prelude.{
  Bool, true, String, ◌≡◌, refl, false, none, List, [], ◌∷◌, ◌++◌, map, Result, ok, err, arith,
  eq_iff, if◌then◌else◌,
}
use mathlib.Core.Path.{subst}
use conductor.Prelude.Equality.{◌==◌, string_instance}
use conductor.Prelude.Sets.{contains, AreDistinct}
use conductor.Prelude.Sorting.{sort_by, insert_sorted}
use conductor.Prelude.Order.{sort_strings}
use conductor.Prelude.Text.{to_lower, lower_char}
use conductor.Sql.{SqlValue, text, Rows, Database}
use conductor.Migrate.{
  DirEntry, Files, create_table, insert_applied, is_applied, mark_applied, ensure_schema_migrations,
  apply_dir, apply_files, apply_file, sql_files, has_suffix,
}
use conductor.Migrate.Journal.{Journal, pending, AreApplied}
use conductor.Migrate.Once.{apply_dir_once}

-- The table is there, its names, and the scripts that have run.
pub record Kept : Type 0 where
  pub table : Bool
  pub names : List String
  pub scripts : List String

abbrev insert_name : List SqlValue → Kept → Result (Unit {0}) × Kept
insert_name (text name ∷ args) s =
    if s.table
    then (ok tt, record s { names = name ∷ s.names })
    else (err "Error 1146: no such table", s)
insert_name args s = (err "Error 1064", s)

abbrev run_statement : String → List SqlValue → Kept → Result (Unit {0}) × Kept
run_statement statement args s =
    if statement == create_table
    then (ok tt, record s { table = true })
    else if statement == insert_applied
    then insert_name args s
    else (ok tt, record s { scripts = s.scripts ++ statement ∷ [] })

abbrev select_name : List SqlValue → Kept → Result Rows
select_name (text name ∷ args) s =
    if s.table
    then (if contains name s.names then ok ((text name ∷ []) ∷ [], none) else ok ([], none))
    else err "Error 1146: no such table"
select_name args s = err "Error 1064"

abbrev as_text : SqlValue → Result String
as_text (text s) = ok s
as_text v = err "not a text"

abbrev pub toy : Database Kept Kept
toy = record {
  exec = run_statement;
  query = λ statement. select_name;
  begin_tx = λ s. ok s;
  tx_exec = run_statement;
  tx_query = λ statement. select_name;
  commit = λ s t. (ok tt, s);
  rollback = λ s t. t;
  to_text = as_text;
  to_uint = λ v. err "not a number";
  to_time = λ v. err "not a time";
}

abbrev pub script : String
script = "CREATE TABLE t (x INT)"

abbrev pub disk : Files
disk = record {
  read_dir = λ dir. ok (
      record { name = "2.sql"; is_dir = false }
      ∷ record { name = "notes"; is_dir = false }
      ∷ record { name = "1.SQL"; is_dir = false }
      ∷ []);
  read_file = λ path. ok script;
  join = λ dir name. name;
  base = λ path. path;
}

abbrev pub entries : List DirEntry
entries =
    record { name = "2.sql"; is_dir = false }
    ∷ record { name = "notes"; is_dir = false }
    ∷ record { name = "1.SQL"; is_dir = false }
    ∷ []

unfoldable pub toy-Journal : Journal disk toy
unfolding contains
toy-Journal = record {
  has_table = λ s. s.table;
  applied = λ name s. contains name s.names;
  history = λ s. s.scripts;
  absent = λ name s e. ground (arith, e);
  present = λ name s row rows failure e. ground (arith, e);
  creates_table = λ s done. refl;
  creates_applied = λ name s. refl;
  creates_history = λ s. refl;
  marks_table = λ name s h. ground (arith, h);
  marks_applied = λ name asked s done. ground (arith, done, eq_iff name asked);
  marks_history = λ name s. ground arith;
  runs_table = λ path body s read h.
      let e : script ≡ body = cc read in subst (λ b. (toy.exec b [] s).1.table ≡ true) e h;
  runs_applied = λ path body name s read.
      let e : script ≡ body = cc read in
      subst (λ b. contains name (toy.exec b [] s).1.names ≡ contains name s.names) e refl;
  runs_history = λ path body s read ran.
      let e : script ≡ body = cc read in
      subst (λ b. (toy.exec b [] s).1.scripts ≡ s.scripts ++ b ∷ []) e refl;
}

abbrev pub kept : Kept
kept = record { table = false; names = []; scripts = [] }

found_files : sort_strings (sql_files disk (λ c. c) "m" entries) ≡ "1.SQL" ∷ "2.sql" ∷ []
unfolding sort_by insert_sorted sql_files has_suffix to_lower lower_char
found_files = refl

files-AreDistinct : AreDistinct (map disk.base (sort_strings (sql_files disk (λ c. c) "m" entries)))
files-AreDistinct = rw found_files ((refl, tt), (tt, tt))

kept_done : (apply_dir disk toy (λ c. c) "m" kept).0 ≡ ok tt
unfolding apply_dir ensure_schema_migrations apply_files apply_file is_applied mark_applied contains
    sort_by insert_sorted sql_files has_suffix to_lower lower_char
kept_done = refl

apply_dir_once_example :
    ((apply_dir disk toy (λ c. c) "m" kept).1.scripts
      ≡ kept.scripts
        ++ pending disk toy toy-Journal (sort_strings (sql_files disk (λ c. c) "m" entries)) kept)
    × AreApplied disk toy toy-Journal
        (sort_strings (sql_files disk (λ c. c) "m" entries))
        (apply_dir disk toy (λ c. c) "m" kept).1
    × ((apply_dir disk toy (λ c. c) "m" kept).1.table ≡ true)
    × ((apply_dir disk toy (λ c. c) "m" (apply_dir disk toy (λ c. c) "m" kept).1).1.scripts
        ≡ (apply_dir disk toy (λ c. c) "m" kept).1.scripts)
unfolding toy-Journal
apply_dir_once_example =
    apply_dir_once disk toy toy-Journal (λ c. c) "m" entries kept refl files-AreDistinct kept_done
