-- ===== src/Tests/Startup.antt =====
-- Tests of the start of the API, in dev, with the database of the tests of the migrations.
use Prim.Native.Char.{Char}
use conductor.Prelude.{true, String, ◌≡◌, refl, none, some, [], ◌∷◌, map, ok, if◌then◌else◌}
use conductor.Prelude.Equality.{◌==◌, string_instance}
use conductor.Prelude.Sets.{contains, AreDistinct}
use conductor.Prelude.Sorting.{sort_by, insert_sorted}
use conductor.Prelude.Order.{sort_strings}
use conductor.Prelude.Text.{to_lower, lower_char, trim_space, trim_left, trim_right, is_space}
use conductor.Migrate.{
  ensure_schema_migrations, apply_dir, apply_files, apply_file, is_applied, mark_applied, sql_files,
  has_suffix,
}
use conductor.Startup.{
  Environ, load, Driver, new_mysql_store, FactoryResult, serving, PemLibrary, bootstrap_tenant,
  load_rsa_public_key_from_env, new_store, open_database, migrate, bootstrap, start,
}
use conductor.Startup.Opened.{HasKey}
use conductor.Startup.Serves.{IsBacked, start-IsBacked, start-AreApplied}
use conductor.Migrate.Journal.{AreApplied}
use conductor.Tests.Migrate.{Kept, toy, disk, entries, toy-Journal, kept, script}

-- Each pool is the one database of the tests; a number names it.
abbrev toy_driver : Driver String Kept Kept
toy_driver = record {
  open_pool = λ name dsn w. (ok dsn, w);
  set_max_open_conns = λ d n w. w;
  set_max_idle_conns = λ d n w. w;
  set_conn_max_lifetime = λ d n w. w;
  ping = λ d timeout w. (ok tt, w);
  close = λ d w. w;
  session = λ d. toy;
}

abbrev pem : PemLibrary String
pem text = ok text

-- `ENV` and the key are not set.
abbrev environ : Environ
environ name =
    if name == "STATE_BACKEND"
    then " MySQL"
    else if name == "DB_DSN"
    then "tcp(db)"
    else if name == "RUN_MIGRATIONS"
    then "true"
    else ""

abbrev started : Kept
started = record {
  table = true;
  names = "2.sql" ∷ "1.SQL" ∷ [];
  scripts = script ∷ script ∷ bootstrap_tenant ∷ [];
}

abbrev fold : Char → Char
fold c = c

migration_names : sort_strings (sql_files disk fold "migrations" entries) ≡ "1.SQL" ∷ "2.sql" ∷ []
unfolding sort_by insert_sorted sql_files has_suffix to_lower lower_char
migration_names = refl

migrations-AreDistinct :
    AreDistinct (map disk.base (sort_strings (sql_files disk fold "migrations" entries)))
migrations-AreDistinct = rw migration_names ((refl, tt), (tt, tt))

environ_served : start toy_driver disk fold pem environ kept ≡ (
  serving (record { store = new_mysql_store "tcp(db)"; database = some "tcp(db)" }) none,
  started,
)
unfolding start load load_rsa_public_key_from_env new_store open_database migrate bootstrap
    apply_dir ensure_schema_migrations apply_files apply_file is_applied mark_applied contains
    sort_by insert_sorted sql_files has_suffix to_lower lower_char trim_space trim_left trim_right
    is_space
environ_served = refl

bootstrap_kept :
    (name : String) (w : Kept)
    → toy-Journal.applied name (toy.exec bootstrap_tenant [] w).1 ≡ toy-Journal.applied name w
unfolding toy-Journal
bootstrap_kept name w = refl

abbrev over_database : FactoryResult String
over_database = record { store = new_mysql_store "tcp(db)"; database = some "tcp(db)" }

start-IsBacked_example :
    HasKey toy_driver
      (load environ)
      (load_rsa_public_key_from_env pem environ "JWT_PUBLIC_KEY_PEM")
      none
    × IsBacked toy_driver disk fold
        (load environ)
        kept
        started
        (new_mysql_store "tcp(db)")
        (some "tcp(db)")
start-IsBacked_example =
    start-IsBacked toy_driver disk fold pem environ kept started over_database none environ_served

migrations_asked : (load environ).run_migrations ≡ true
unfolding load
migrations_asked = refl

start-AreApplied_example :
    AreApplied disk toy toy-Journal
      (sort_strings (sql_files disk fold "migrations" entries))
      started
start-AreApplied_example =
    start-AreApplied toy_driver disk fold entries "tcp(db)" toy-Journal refl migrations-AreDistinct
      bootstrap_kept pem environ kept started over_database none migrations_asked refl
      environ_served
