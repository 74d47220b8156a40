-- ===== src/State/Memory/Views.antt =====
-- The store in memory against the functions that it stands for: a hash for each tenant and product
-- key, a run for each tenant and run id, a response for each tenant, endpoint and key.
use conductor.Prelude.{
  inl, inr, Option-cases, ℕ, String, ◌≡◌, refl, Bool, ◌&&◌, Option, none, some, arith, eq_iff,
  nat_eq_iff, if◌then◌else◌, ltb,
}
use conductor.Prelude.Equality.{◌==◌, nat_instance, string_instance}
use conductor.Prelude.Maps.{lookup, insert, lookup-insert}
use conductor.State.Records.{RunRecord, IdempotencyRecord}
use conductor.State.Memory.{
  MemoryStore, or_new, get_product_hash, upsert_product_hash, insert_run, get_run, get_idempotency,
  put_idempotency, complete_run, fail_run, set_status,
}

-- A stored hash is read back for its own tenant and product key, and changes no other entry.
pub get_product_hash-upsert :
    (t u : ℕ) (k j hash : String) (s : MemoryStore)
    → get_product_hash u j (upsert_product_hash t k hash s)
      ≡ (if t == u && k == j then some hash else get_product_hash u j s)
unfolding get_product_hash upsert_product_hash lookup
get_product_hash-upsert t u k j hash s = ground (
  arith,
  nat_eq_iff t u,
  lookup-insert t u (insert k hash (or_new (lookup t s.product_hash))) s.product_hash,
  lookup-insert k j hash (or_new (lookup t s.product_hash)),
  eq_iff k j,
)

-- A cached response is served for its own tenant, endpoint and key until it expires, and shadows no
-- other response.
pub get_idempotency-put :
    (now t u : ℕ) (ep fp k j : String) (rec : IdempotencyRecord) (s : MemoryStore)
    → get_idempotency now u fp j (put_idempotency t ep k rec s) ≡ (
        if t == u && (ep == fp && k == j)
        then (if ltb rec.expires_at now then none else some rec)
        else get_idempotency now u fp j s)
unfolding get_idempotency put_idempotency lookup
get_idempotency-put now t u ep fp k j rec s =
    let te = or_new (lookup t s.idem) in
    let eps = or_new (lookup ep te) in
    ground (
      arith,
      nat_eq_iff t u,
      eq_iff ep fp,
      eq_iff k j,
      lookup-insert t u (insert ep (insert k rec eps) te) s.idem,
      lookup-insert ep fp (insert k rec eps) te,
      lookup-insert k j rec eps,
    )

-- A run that is stored is found under its id by its tenant, and by no other tenant.
pub get_run-insert :
    (t : ℕ) (id : String) (run : RunRecord) (s : MemoryStore)
    → get_run t id (insert_run run s) ≡ (
        if run.run_id == id
        then (if run.tenant_id == t then some run else none)
        else get_run t id s)
unfolding get_run insert_run
get_run-insert t id run s = ground (arith, lookup-insert run.run_id id run s.runs)

-- What `CompleteRun` and `FailRun` do to the run that a tenant sees.
abbrev pub settled : Bool → String → Option RunRecord → Option RunRecord
settled own status none = none
settled own status (some r) = if own then some (record r { status = status }) else some r

get_run-set_status :
    (t u : ℕ) (id jd status : String) (s : MemoryStore) (o : Option RunRecord)
    → lookup id s.runs ≡ o
    → get_run u jd (set_status t id status o s)
      ≡ settled (t == u && id == jd) status (get_run u jd s)
unfolding get_run
get_run-set_status t u id jd status s none e = ground (arith, eq_iff id jd, nat_eq_iff t u)
get_run-set_status t u id jd status s (some r) e = ground (
  arith,
  eq_iff id jd,
  nat_eq_iff t u,
  nat_eq_iff r.tenant_id t,
  nat_eq_iff r.tenant_id u,
  lookup-insert id jd (record r { status = status }) s.runs,
)

-- A run of the tenant takes the status "completed", and no other run of any tenant changes.
pub get_run-complete_run :
    (t u : ℕ) (id jd : String) (s : MemoryStore)
    → get_run u jd (complete_run t id s) ≡ settled (t == u && id == jd) "completed" (get_run u jd s)
unfolding complete_run
get_run-complete_run t u id jd s =
    get_run-set_status t u id jd "completed" s (lookup id s.runs) refl

-- A run of the tenant takes the status "failed", and no other run of any tenant changes.
pub get_run-fail_run :
    (t u : ℕ) (id jd message : String) (s : MemoryStore)
    → get_run u jd (fail_run t id message s)
      ≡ settled (t == u && id == jd) "failed" (get_run u jd s)
unfolding fail_run
get_run-fail_run t u id jd message s =
    get_run-set_status t u id jd "failed" s (lookup id s.runs) refl

-- What `GetRun` returns is the stored run, and the tenant's own.
pub get_run-eq-some :
    (t : ℕ) (id : String) (s : MemoryStore) (run : RunRecord)
    → get_run t id s ≡ some run
    → (lookup id s.runs ≡ some run) × (run.tenant_id ≡ t)
unfolding get_run
get_run-eq-some t id s run h = elim (Option-cases (lookup id s.runs)) [
  | inl missing ↦ ground arith
  | inr (r, found) ↦ ground (arith, nat_eq_iff r.tenant_id t)
]

pub get_run-of_lookup :
    (id : String) (s : MemoryStore) (run : RunRecord)
    → lookup id s.runs ≡ some run
    → get_run run.tenant_id id s ≡ some run
unfolding get_run
get_run-of_lookup id s run h = ground (arith, nat_eq_iff run.tenant_id run.tenant_id)

lookup-set_status :
    (t : ℕ) (id jd status : String) (s : MemoryStore) (run : RunRecord)
    → get_run t id s ≡ some run
    → lookup jd (set_status t id status (lookup id s.runs) s).runs
      ≡ (if id == jd then some (record run { status = status }) else lookup jd s.runs)
lookup-set_status t id jd status s run h =
    let (found, own) = get_run-eq-some t id s run h in
    ground (
      arith,
      nat_eq_iff run.tenant_id t,
      lookup-insert id jd (record run { status = status }) s.runs,
    )

pub lookup-complete_run :
    (t : ℕ) (id jd : String) (s : MemoryStore) (run : RunRecord)
    → get_run t id s ≡ some run
    → lookup jd (complete_run t id s).runs
      ≡ (if id == jd then some (record run { status = "completed" }) else lookup jd s.runs)
unfolding complete_run
lookup-complete_run t id jd s run h = lookup-set_status t id jd "completed" s run h

pub lookup-fail_run :
    (t : ℕ) (id jd message : String) (s : MemoryStore) (run : RunRecord)
    → get_run t id s ≡ some run
    → lookup jd (fail_run t id message s).runs
      ≡ (if id == jd then some (record run { status = "failed" }) else lookup jd s.runs)
unfolding fail_run
lookup-fail_run t id jd message s run h = lookup-set_status t id jd "failed" s run h
