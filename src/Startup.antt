-- ===== src/Startup.antt =====
-- internal/config/config.go, internal/db/db.go, internal/state/factory.go, the key of
-- internal/api/auth/jwt_rs256.go, and the start of cmd/api/main.go up to its routes.
pub mod Opened
pub mod Serves
use Prim.Native.Char.{Char}
use conductor.Prelude.{
  ℕ, String, concat, Bool, true, false, Option, none, some, [], Result, ok, err, if◌then◌else◌,
  ◌&&◌,
}
use conductor.Prelude.Equality.{◌==◌, string_instance}
use conductor.Prelude.Text.{trim_space, to_lower, unescape_newlines}
use conductor.Sql.{Database}
use conductor.Migrate.{Files, apply_dir}

-- `os.Getenv`: a variable that is not set is the empty text.
abbrev pub Environ : Type 0
Environ = String → String

pub record Config : Type 0 where
  pub env : String
  pub port : String
  pub state_backend : String
  pub mysql_dsn : String
  pub run_migrations : Bool

abbrev pub getenv : Environ → String → String → String
getenv os key fallback = let v = os key in if v == "" then fallback else v

unfoldable pub load : Environ → Config
load os = record {
  env = getenv os "ENV" "dev";
  port = getenv os "PORT" "8080";
  state_backend = getenv os "STATE_BACKEND" "memory";
  mysql_dsn = getenv os "DB_DSN" "";
  run_migrations = getenv os "RUN_MIGRATIONS" "false" == "true";
}

-- The pool of connections of `database/sql`, over the states of the world: a ping has a timeout in
-- nanoseconds, and the statements of a pool are those of a database.
pub record Driver (D : Type 0) (W : Type 0) (T : Type 0) : Type 0 where
  pub open_pool : String → String → W → Result D × W
  pub set_max_open_conns : D → ℕ → W → W
  pub set_max_idle_conns : D → ℕ → W → W
  pub set_conn_max_lifetime : D → ℕ → W → W
  pub ping : D → ℕ → W → Result (Unit {0}) × W
  pub close : D → W → W
  pub session : D → Database W T

-- `Store`: the empty store in memory, or the one over a pool.
pub data OpenStore (D : Type 0) : Type 0 where
  new_memory_store : OpenStore D
  new_mysql_store : D → OpenStore D

pub record FactoryResult (D : Type 0) : Type 0 where
  pub store : OpenStore D
  pub database : Option D

abbrev pub or_memory : String → String
or_memory backend = if backend == "" then "memory" else backend

-- `jwt.ParseRSAPublicKeyFromPEM`
abbrev pub PemLibrary : Type 0 → Type 0
PemLibrary K = String → Result K

abbrev pub parsed_key : {K : Type 0} → Result K → Result K
parsed_key (err m) = err (concat "parse public key pem failed: " m)
parsed_key (ok key) = ok key

unfoldable pub load_rsa_public_key_from_env :
    {K : Type 0} → PemLibrary K → Environ → String → Result K
load_rsa_public_key_from_env pem os env_key =
    let raw = trim_space (os env_key) in
    if raw == ""
    then err (concat env_key " is not set")
    else parsed_key (pem (unescape_newlines raw))

-- `os.Exit(1)` behind a message, or the server's store and key.
pub data Started (D : Type 0) (K : Type 0) : Type 0 where
  exited : String → Started D K
  serving : FactoryResult D → Option K → Started D K

abbrev pub bootstrap_tenant : String
bootstrap_tenant =
    "INSERT INTO tenants (tenant_id, name)\nVALUES (1, 'debug')\nON DUPLICATE KEY UPDATE name=VALUES(name)"

module _ {D W T : Type 0} (driver : Driver D W T) where
  -- `db.Open`
  abbrev pub with_pool_limits : Result D × W → Result D × W
  with_pool_limits (err m, w) = (err m, w)
  with_pool_limits (ok d, w) = (
    ok d,
    driver.set_conn_max_lifetime d 300000000000
        (driver.set_max_idle_conns d 20 (driver.set_max_open_conns d 20 w)),
  )

  unfoldable pub open_database : String → W → Result D × W
  open_database dsn w = with_pool_limits (driver.open_pool "mysql" dsn w)

  -- `db.Ping`, which nothing calls.
  abbrev ping_pool : D → W → Result (Unit {0}) × W
  ping_pool d w = driver.ping d 3000000000 w

  abbrev pub pinged : D → Result (Unit {0}) × W → Result (FactoryResult D) × W
  pinged d (err m, w) = (err m, driver.close d w)
  pinged d (ok _, w) = (ok (record { store = new_mysql_store d; database = some d }), w)

  abbrev pub connected : Result D × W → Result (FactoryResult D) × W
  connected (err m, w) = (err m, w)
  connected (ok d, w) = pinged d (driver.ping d 5000000000 w)

  unfoldable pub new_store : (Char → Char) → String → String → W → Result (FactoryResult D) × W
  new_store fold backend dsn w =
      let chosen = or_memory (to_lower fold (trim_space backend)) in
      if chosen == "memory"
      then (ok (record { store = new_memory_store; database = none }), w)
      else if chosen == "mysql"
      then (if trim_space dsn == ""
          then (err "DB_DSN is required when STATE_BACKEND=mysql", w)
          else connected (open_database dsn w))
      else (err "unknown STATE_BACKEND (use memory or mysql)", w)

  -- The debug tenant, in dev and with a database.
  unfoldable pub bootstrap : Config → Option D → W → Result (Unit {0}) × W
  bootstrap cfg none w = (ok tt, w)
  bootstrap cfg (some d) w =
      if cfg.env == "dev" then (driver.session d).exec bootstrap_tenant [] w else (ok tt, w)

  abbrev pub bootstrapped :
      {K : Type 0} → FactoryResult D → Option K → Result (Unit {0}) × W → Started D K × W
  bootstrapped res key (err m, w) = (exited (concat "bootstrap tenant failed: " m), w)
  bootstrapped res key (ok _, w) = (serving res key, w)

  abbrev pub migrated :
      {K : Type 0} → Config → FactoryResult D → Option K → Result (Unit {0}) × W → Started D K × W
  migrated cfg res key (err m, w) = (exited (concat "migrations failed: " m), w)
  migrated cfg res key (ok _, w) = bootstrapped res key (bootstrap cfg res.database w)

  module _ (files : Files) (fold : Char → Char) where
    -- The migrations, where they are asked for and there is a database.
    unfoldable pub migrate : Config → Option D → W → Result (Unit {0}) × W
    migrate cfg none w = (ok tt, w)
    migrate cfg (some d) w =
        if cfg.run_migrations
        then apply_dir files (driver.session d) fold "migrations" w
        else (ok tt, w)

    -- In dev the key may be missing.
    abbrev pub with_key : {K : Type 0} → Config → FactoryResult D → Result K → W → Started D K × W
    with_key cfg res (ok key) w = migrated cfg res (some key) (migrate cfg res.database w)
    with_key cfg res (err m) w =
        if cfg.env == "dev"
        then migrated cfg res none (migrate cfg res.database w)
        else (exited (concat "JWT public key load failed: " m), w)

    abbrev pub with_factory :
        {K : Type 0} → Config → Result K → Result (FactoryResult D) × W → Started D K × W
    with_factory cfg key (err m, w) = (exited (concat "state store init failed: " m), w)
    with_factory cfg key (ok res, w) = with_key cfg res key w

    -- The start of cmd/api.
    unfoldable pub start : {K : Type 0} → PemLibrary K → Environ → W → Started D K × W
    start pem os w =
        let cfg = load os in
        with_factory cfg (load_rsa_public_key_from_env pem os "JWT_PUBLIC_KEY_PEM")
          (new_store fold (or_memory cfg.state_backend) cfg.mysql_dsn w)

  -- The start of cmd/worker, which opens a store of its own.
  abbrev pub worker_stored : Result (FactoryResult D) × W → Result (OpenStore D) × W
  worker_stored (err m, w) = (err (concat "state store init failed: " m), w)
  worker_stored (ok res, w) = (ok res.store, w)

  unfoldable pub start_worker : (Char → Char) → Environ → W → Result (OpenStore D) × W
  start_worker fold os w =
      let cfg = load os in
      worker_stored (new_store fold (or_memory cfg.state_backend) cfg.mysql_dsn w)
