-- ===== src/Startup/Serves.antt =====
-- What a start of cmd/api that ends in serving has done.
use Prim.Native.Char.{Char}
use conductor.Prelude.{
  ap, ◌∙◌, sym, String, true, ◌≡◌, ◌≢◌, refl, Bool-cases, inl, inr, Option, none, some, List, [],
  map, Result, ok, All-imp,
}
use mathlib.Core.Path.{subst}
use conductor.Prelude.Equality.{◌==◌, string_instance}
use conductor.Prelude.Sets.{AreDistinct}
use conductor.Prelude.Order.{sort_strings}
use conductor.Prelude.Text.{trim_space, to_lower}
use conductor.Migrate.{DirEntry, Files, sql_files}
use conductor.Migrate.Journal.{Journal, AreApplied}
use conductor.Migrate.Once.{apply_dir_once}
use conductor.Startup.Opened.{HasKey, IsBooted, new_store-ok, with_factory-serving}
use conductor.Startup.{
  open_database, Environ, Config, load, Driver, OpenStore, new_memory_store, new_mysql_store,
  FactoryResult, or_memory, PemLibrary, load_rsa_public_key_from_env, serving, bootstrap_tenant,
  new_store, bootstrap, migrate, start,
}

module _ {D W T : Type 0} (driver : Driver D W T) (files : Files) (fold : Char → Char) where
  -- The store that is served, the database, and the state that the start leaves.
  abbrev pub IsBacked : Config → W → W → OpenStore D → Option D → Type 0
  IsBacked cfg w w' new_memory_store database =
      (database ≡ none)
      × (w' ≡ w)
      × (or_memory (to_lower fold (trim_space (or_memory cfg.state_backend))) ≡ "memory")
  IsBacked cfg w w' (new_mysql_store d) database =
      (database ≡ some d)
      × (or_memory (to_lower fold (trim_space (or_memory cfg.state_backend))) ≡ "mysql")
      × (trim_space cfg.mysql_dsn ≢ "")
      × ((driver.open_pool "mysql" cfg.mysql_dsn w).0 ≡ ok d)
      × ((driver.ping d 5000000000 (open_database driver cfg.mysql_dsn w).1).0 ≡ ok tt)

  memory-IsBacked :
      (cfg : Config) (w w₁ w' : W)
      → or_memory (to_lower fold (trim_space (or_memory cfg.state_backend))) ≡ "memory"
      → w₁ ≡ w
      → IsBooted driver files fold cfg (record { store = new_memory_store; database = none }) w₁ w'
      → IsBacked cfg w w' new_memory_store none
  unfolding migrate bootstrap
  memory-IsBacked cfg w w₁ w' asked kept b = (refl, b.after ∙ kept, asked)

  -- A start of the API that ends in serving has the store that `STATE_BACKEND` names: the one in
  -- memory, with no statement executed anywhere, or one over a pool that was opened for a DSN that is
  -- not blank and has answered a ping. Outside dev it has the public key of the environment.
  pub start-IsBacked :
      {K : Type 0} (pem : PemLibrary K) (os : Environ) (w w' : W) (res : FactoryResult D)
      (key : Option K)
      → start driver files fold pem os w ≡ (serving res key, w')
      → HasKey driver (load os) (load_rsa_public_key_from_env pem os "JWT_PUBLIC_KEY_PEM") key
        × IsBacked (load os) w w' res.store res.database
  unfolding start
  start-IsBacked {K} pem os w w' res key e =
      let cfg = load os in
      let opened = new_store driver fold (or_memory cfg.state_backend) cfg.mysql_dsn w in
      let (found, keyed, booted) =
        with_factory-serving driver files fold cfg res
          (load_rsa_public_key_from_env pem os "JWT_PUBLIC_KEY_PEM") key opened w' e in
      elim (new_store-ok driver fold (or_memory cfg.state_backend) cfg.mysql_dsn w res opened.1
        (ap (λ (m : Result (FactoryResult D)). (m, opened.1)) found)) [
          | inl (same, kept, asked) ↦ (
            keyed,
            subst (λ r. IsBacked cfg w w' r.store r.database) (sym same)
                (memory-IsBacked cfg w opened.1 w' asked kept
                  (subst (λ r. IsBooted driver files fold cfg r opened.1 w') same booted)),
          )
          | inr (d, o) ↦ (
            keyed,
            subst (λ r. IsBacked cfg w w' r.store r.database) (sym o.opened)
                (refl, o.asked, o.named, o.pool, o.answers),
          )
        ]

  module _ (dir_entries : List DirEntry) (d : D) (j : Journal files (driver.session d))
      (listed : files.read_dir "migrations" ≡ ok dir_entries)
      (distinct : AreDistinct
        (map files.base (sort_strings (sql_files files fold "migrations" dir_entries))))
      (bootstraps : (name : String) (w : W)
        → j.applied name ((driver.session d).exec bootstrap_tenant [] w).1 ≡ j.applied name w) where
    abbrev script_paths : List String
    script_paths = sort_strings (sql_files files fold "migrations" dir_entries)

    migrate-AreApplied :
        (cfg : Config) (w : W)
        → cfg.run_migrations ≡ true
        → (migrate driver files fold cfg (some d) w).0 ≡ ok tt
        → AreApplied files
            (driver.session d)
            j
            script_paths
            (migrate driver files fold cfg (some d) w).1
    unfolding migrate
    migrate-AreApplied cfg w on = rw on (λ ran.
        (apply_dir_once files (driver.session d) j fold "migrations" dir_entries w listed distinct
          ran).1)

    bootstrap-AreApplied :
        (cfg : Config) (w : W)
        → AreApplied files (driver.session d) j script_paths w
        → AreApplied files (driver.session d) j script_paths (bootstrap driver cfg (some d) w).1
    unfolding bootstrap
    bootstrap-AreApplied cfg w = elim (Bool-cases (cfg.env == "dev")) [
      | inr other ↦ rw other (λ m. m)
      | inl dev ↦
          rw dev (λ m. All-imp (λ path h. bootstraps (files.base path) w ∙ h) script_paths m)
    ]

    booted-AreApplied :
        (cfg : Config) (o : Option D) (w w' : W)
        → cfg.run_migrations ≡ true
        → o ≡ some d
        → (migrate driver files fold cfg o w).0 ≡ ok tt
        → w' ≡ (bootstrap driver cfg o (migrate driver files fold cfg o w).1).1
        → AreApplied files (driver.session d) j script_paths w'
    booted-AreApplied cfg o w w' on e = rw e (λ ran after.
        subst (AreApplied files (driver.session d) j script_paths) (sym after) (
          bootstrap-AreApplied cfg (migrate driver files fold cfg (some d) w).1
            (migrate-AreApplied cfg w on ran)))

    -- A start that serves over a database, with `RUN_MIGRATIONS` set to "true", leaves every migration in
    -- the table of that database. The files of the migrations can be listed and have distinct names,
    -- and the statement for the debug tenant leaves the table of migrations as it is.
    pub start-AreApplied :
        {K : Type 0} (pem : PemLibrary K) (os : Environ) (w w' : W) (res : FactoryResult D)
        (key : Option K)
        → (load os).run_migrations ≡ true
        → res.database ≡ some d
        → start driver files fold pem os w ≡ (serving res key, w')
        → AreApplied files (driver.session d) j script_paths w'
    unfolding start
    start-AreApplied {K} pem os w w' res key on over e =
        let cfg = load os in
        let opened = new_store driver fold (or_memory cfg.state_backend) cfg.mysql_dsn w in
        let (found, keyed, booted) =
          with_factory-serving driver files fold cfg res
            (load_rsa_public_key_from_env pem os "JWT_PUBLIC_KEY_PEM") key opened w' e in
        booted-AreApplied cfg res.database opened.1 w' on over booted.ran booted.after
