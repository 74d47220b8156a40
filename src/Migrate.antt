-- ===== src/Migrate.antt =====
-- internal/migrate/migrate.go
pub mod Journal
pub mod Once
use Prim.Native.Char.{Char}
use conductor.Prelude.{
  String, concat, Bool, true, false, Option, none, some, List, [], ◌∷◌, Result, ok, err, ◌>>=◌,
  if◌then◌else◌, ◌||◌,
}
use conductor.Prelude.Equality.{◌==◌, string_instance}
use conductor.Prelude.Text.{to_lower}
use conductor.Prelude.Order.{sort_strings}
use conductor.Sql.{SqlValue, text, Row, Database, query_row, scan_one}

pub record DirEntry : Type 0 where
  pub name : String
  pub is_dir : Bool

-- What the migration uses of `os` and `path/filepath`.
pub record Files : Type 0 where
  pub read_dir : String → Result (List DirEntry)
  pub read_file : String → Result String
  pub join : String → String → String
  pub base : String → String

-- `strings.HasSuffix`
unfoldable pub has_suffix : String → String → Bool
has_suffix String.[] suffix = suffix == ""
has_suffix (String.◌∷◌ c s) suffix = String.◌∷◌ c s == suffix || has_suffix s suffix

abbrev pub create_table : String
create_table =
    "\nCREATE TABLE IF NOT EXISTS schema_migrations (\n  name VARCHAR(255) NOT NULL,\n  applied_at TIMESTAMP NOT NULL DEFAULT CURRENT_TIMESTAMP,\n  PRIMARY KEY (name)\n) ENGINE=InnoDB;\n"

abbrev pub select_applied : String
select_applied = "SELECT name FROM schema_migrations WHERE name = ?"

abbrev pub insert_applied : String
insert_applied = "INSERT INTO schema_migrations (name) VALUES (?)"

abbrev pub is_sql_file : (Char → Char) → DirEntry → Bool
is_sql_file fold e = if e.is_dir then false else has_suffix (to_lower fold e.name) ".sql"

-- The paths of the migrations, before they are sorted.
unfoldable pub sql_files : Files → (Char → Char) → String → List DirEntry → List String
sql_files files fold dir [] = []
sql_files files fold dir (e ∷ entries) =
    let rest = sql_files files fold dir entries in
    if is_sql_file fold e then files.join dir e.name ∷ rest else rest

module _ (files : Files) {S T : Type 0} (db : Database S T) where
  abbrev pub found_name : Option Row → Result Bool
  found_name none = ok false
  found_name (some row) = do name ← scan_one db row; ok true

  unfoldable pub is_applied : String → S → Result Bool
  is_applied name s = do row ← query_row db select_applied (text name ∷ []) s; found_name row

  unfoldable pub mark_applied : String → S → Result (Unit {0}) × S
  mark_applied name s = db.exec insert_applied (text name ∷ []) s

  abbrev pub executed : String → Result (Unit {0}) × S → Result (Unit {0}) × S
  executed name (err m, s) = (err (concat "migration " (concat name (concat " failed: " m))), s)
  executed name (ok _, s) = mark_applied name s

  abbrev pub with_text : String → Result String → S → Result (Unit {0}) × S
  with_text name (err m) s = (err m, s)
  with_text name (ok sql_text) s = executed name (db.exec sql_text [] s)

  abbrev pub unless_applied : String → String → Result Bool → S → Result (Unit {0}) × S
  unless_applied path name (err m) s = (err m, s)
  unless_applied path name (ok true) s = (ok tt, s)
  unless_applied path name (ok false) s = with_text name (files.read_file path) s

  -- One turn of the loop.
  unfoldable pub apply_file : String → S → Result (Unit {0}) × S
  apply_file path s = unless_applied path (files.base path) (is_applied (files.base path) s) s

  unfoldable pub apply_files : List String → S → Result (Unit {0}) × S
  apply_files [] s = (ok tt, s)
  apply_files (path ∷ paths) s =
      let q = apply_file path s in
      let rest = apply_files paths q.1 in elim q.0 [ err m ↦ q | ok _ ↦ rest ]

  unfoldable pub ensure_schema_migrations : S → Result (Unit {0}) × S
  ensure_schema_migrations s = db.exec create_table [] s

  abbrev pub ensured : List String → Result (Unit {0}) × S → Result (Unit {0}) × S
  ensured paths (err m, s) = (err m, s)
  ensured paths (ok _, s) = apply_files paths s

  abbrev pub with_entries :
      (Char → Char) → String → Result (List DirEntry) → S → Result (Unit {0}) × S
  with_entries fold dir (err m) s = (err m, s)
  with_entries fold dir (ok entries) s =
      ensured (sort_strings (sql_files files fold dir entries)) (ensure_schema_migrations s)

  unfoldable pub apply_dir : (Char → Char) → String → S → Result (Unit {0}) × S
  apply_dir fold dir s = with_entries fold dir (files.read_dir dir) s
