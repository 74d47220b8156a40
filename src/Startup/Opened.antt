-- ===== src/Startup/Opened.antt =====
-- How the start of cmd/api gets to serving: what the factory opens, the key, and what is left then.
use Prim.Native.Char.{Char}
use conductor.Prelude.{
  ap, sym, String, ◌≡◌, ◌≢◌, refl, ◌⊎◌, Bool-cases, inl, inr, Option, none, some, Result, ok, err,
  arith, eq_iff,
}
use mathlib.Core.Path.{subst}
use conductor.Prelude.Equality.{◌==◌, string_instance}
use conductor.Prelude.Text.{trim_space, to_lower}
use conductor.Migrate.{Files}
use conductor.Startup.{
  Environ, Config, load, Driver, OpenStore, new_memory_store, new_mysql_store, FactoryResult,
  or_memory, PemLibrary, load_rsa_public_key_from_env, serving, open_database, with_pool_limits,
  pinged, connected, new_store, bootstrap, bootstrapped, migrated, migrate, with_key, with_factory,
  start, worker_stored, start_worker,
}

module _ {D W T : Type 0} (driver : Driver D W T) where
  bootstrapped-serving :
      {K : Type 0} (res r : FactoryResult D) (key k : Option K) (q : Result (Unit {0}) × W) (w' : W)
      → bootstrapped driver res key q ≡ (serving r k, w')
      → (r ≡ res) × (k ≡ key) × (w' ≡ q.1)
  bootstrapped-serving res r key k (err m, w) w' e = cc
  bootstrapped-serving res r key k (ok u, w) w' e = (cc, cc, cc)

  migrated-serving :
      {K : Type 0} (cfg : Config) (res r : FactoryResult D) (key k : Option K)
      (q : Result (Unit {0}) × W) (w' : W)
      → migrated driver cfg res key q ≡ (serving r k, w')
      → (q.0 ≡ ok tt) × (r ≡ res) × (k ≡ key) × (w' ≡ (bootstrap driver cfg res.database q.1).1)
  migrated-serving cfg res r key k (err m, w) w' e = cc
  migrated-serving cfg res r key k (ok u, w) w' e =
      let (same, keyed, after) =
        bootstrapped-serving res r key k (bootstrap driver cfg res.database w) w' e in
      (refl, same, keyed, after)

  -- What the factory opens: a pool for the DSN, which answers a ping.
  pub record IsOpened (d : D) (fold : Char → Char) (backend : String) (dsn : String) (w : W)
      (res : FactoryResult D) : Type 0 where
    pub opened : res ≡ record { store = new_mysql_store d; database = some d }
    pub asked : or_memory (to_lower fold (trim_space backend)) ≡ "mysql"
    pub named : trim_space dsn ≢ ""
    pub pool : (driver.open_pool "mysql" dsn w).0 ≡ ok d
    pub answers : (driver.ping d 5000000000 (open_database driver dsn w).1).0 ≡ ok tt

  connected-ok :
      (q : Result D × W) (res : FactoryResult D) (w' : W)
      → connected driver q ≡ (ok res, w')
      → (d : D) × (res ≡ record { store = new_mysql_store d; database = some d })
        × (q.0 ≡ ok d)
        × ((driver.ping d 5000000000 q.1).0 ≡ ok tt)
  connected-ok (err m, w) res w' e = cc
  connected-ok (ok d, w) res w' e =
      let (same, answers) = reached (driver.ping d 5000000000 w) e in (d, same, refl, answers)
    where
      reached :
          (q : Result (Unit {0}) × W)
          → pinged driver d q ≡ (ok res, w')
          → (res ≡ record { store = new_mysql_store d; database = some d }) × (q.0 ≡ ok tt)
      reached (err m, w₁) e₁ = cc
      reached (ok u, w₁) e₁ = (cc, refl)

  with_pool_limits-ok :
      (q : Result D × W) (d : D) → (with_pool_limits driver q).0 ≡ ok d → q.0 ≡ ok d
  with_pool_limits-ok (err m, w) d e = e
  with_pool_limits-ok (ok d', w) d e = e

  open_database-ok :
      (dsn : String) (w : W) (d : D)
      → (open_database driver dsn w).0 ≡ ok d
      → (driver.open_pool "mysql" dsn w).0 ≡ ok d
  unfolding open_database
  open_database-ok dsn w d e = with_pool_limits-ok (driver.open_pool "mysql" dsn w) d e

  pub new_store-ok :
      (fold : Char → Char) (backend dsn : String) (w : W) (res : FactoryResult D) (w' : W)
      → new_store driver fold backend dsn w ≡ (ok res, w')
      → ((res ≡ record { store = new_memory_store; database = none })
          × (w' ≡ w)
          × (or_memory (to_lower fold (trim_space backend)) ≡ "memory"))
        ⊎ ((d : D) × IsOpened d fold backend dsn w res)
  unfolding new_store
  new_store-ok fold backend dsn w res w' =
      let chosen = or_memory (to_lower fold (trim_space backend)) in
      elim (Bool-cases (chosen == "memory")) [
        | inl memory ↦ rw memory (λ e. inl (cc, cc, ground (arith, memory, eq_iff chosen "memory")))
        | inr other ↦ elim (Bool-cases (chosen == "mysql")) [
          | inr unknown ↦ rw (other, unknown) (λ e. cc)
          | inl mysql ↦ elim (Bool-cases (trim_space dsn == "")) [
            | inl blank ↦ rw (other, mysql, blank) (λ e. cc)
            | inr named ↦
                rw (other, mysql, named)
                  (λ e.
                    let (d, opened, pool, answers) =
                      connected-ok (open_database driver dsn w) res w' e in
                    inr (
                      d,
                      record {
                        opened = opened;
                        asked = ground (arith, mysql, eq_iff chosen "mysql");
                        named = ground (arith, named, eq_iff (trim_space dsn) "");
                        pool = open_database-ok dsn w d pool;
                        answers = answers;
                      },
                    ))
          ]
        ]
      ]

  -- The key of the result is the one that was loaded, or there is none, and this is dev.
  abbrev pub HasKey : {K : Type 0} → Config → Result K → Option K → Type 0
  HasKey cfg loaded none = cfg.env ≡ "dev"
  HasKey cfg loaded (some key) = loaded ≡ ok key

  module _ (files : Files) (fold : Char → Char) where
    -- What is left when the key has been loaded: the migrations and the tenant.
    pub record IsBooted (cfg : Config) (res : FactoryResult D) (w : W) (w' : W) : Type 0 where
      pub ran : (migrate driver files fold cfg res.database w).0 ≡ ok tt
      pub after :
          w'
          ≡ (bootstrap driver cfg res.database (migrate driver files fold cfg res.database w).1).1

    with_key-serving :
        {K : Type 0} (cfg : Config) (res r : FactoryResult D) (loaded : Result K) (k : Option K)
        (w w' : W)
        → with_key driver files fold cfg res loaded w ≡ (serving r k, w')
        → (r ≡ res) × HasKey cfg loaded k × IsBooted cfg res w w'
    with_key-serving cfg res r (ok key) k w w' = λ e.
        let (ran, same, keyed, after) =
          migrated-serving cfg res r (some key) k (migrate driver files fold cfg res.database w) w'
            e in
        (same, subst (HasKey cfg (ok key)) (sym keyed) refl, record { ran = ran; after = after })
    with_key-serving cfg res r (err m) k w w' = elim (Bool-cases (cfg.env == "dev")) [
      | inr other ↦ rw other (λ e. cc)
      | inl dev ↦ rw dev (λ e.
          let (ran, same, keyed, after) =
            migrated-serving cfg res r none k (migrate driver files fold cfg res.database w) w' e in
          (
            same,
            subst (HasKey cfg (err m)) (sym keyed) (ground (arith, dev, eq_iff cfg.env "dev")),
            record { ran = ran; after = after },
          ))
    ]

    pub with_factory-serving :
        {K : Type 0} (cfg : Config) (r : FactoryResult D) (loaded : Result K) (k : Option K)
        (q : Result (FactoryResult D) × W) (w' : W)
        → with_factory driver files fold cfg loaded q ≡ (serving r k, w')
        → (q.0 ≡ ok r) × HasKey cfg loaded k × IsBooted cfg r q.1 w'
    with_factory-serving cfg r loaded k (err m, w) w' e = cc
    with_factory-serving cfg r loaded k (ok res, w) w' e =
        let (same, key, booted) = with_key-serving cfg res r loaded k w w' e in
        (ap ok (sym same), key, subst (λ o. IsBooted cfg o w w') (sym same) booted)

    worker_stored-ok :
        (q : Result (FactoryResult D) × W) (res : FactoryResult D)
        → q.0 ≡ ok res
        → (worker_stored driver q).0 ≡ ok res.store
    worker_stored-ok (err m, w) res e = cc
    worker_stored-ok (ok r, w) res e = ap (λ (m : Result (FactoryResult D)). store_of m) e
      where
        store_of : Result (FactoryResult D) → Result (OpenStore D)
        store_of (err m) = err m
        store_of (ok o) = ok o.store

    -- Where the API starts and serves, the worker, started in the same environment and state, opens the
    -- same kind of store.
    pub start_worker-start :
        {K : Type 0} (pem : PemLibrary K) (os : Environ) (w w' : W) (res : FactoryResult D)
        (key : Option K)
        → start driver files fold pem os w ≡ (serving res key, w')
        → (start_worker driver fold os w).0 ≡ ok res.store
    unfolding start start_worker
    start_worker-start pem os w w' res key e =
        let cfg = load os in
        let opened = new_store driver fold (or_memory cfg.state_backend) cfg.mysql_dsn w in
        worker_stored-ok opened res
          (with_factory-serving cfg res (load_rsa_public_key_from_env pem os "JWT_PUBLIC_KEY_PEM")
            key opened w' e).0
