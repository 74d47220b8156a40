-- ===== src/State/Memory/Refine.antt =====
-- The store in memory implements the specification of a store.
use conductor.Prelude.{
  ℕ, ℤ, String, ◌≡◌, refl, ap, ◌∙◌, ◌&&◌, Option, none, some, List, [], ◌∷◌, arith, eq_iff,
  nat_eq_iff, if◌then◌else◌,
}
use conductor.Prelude.Equality.{◌==◌, nat_instance, string_instance}
use conductor.Prelude.Maps.{lookup, insert, lookup-insert}
use conductor.Ingest.Processor.{ProductProcessResult}
use conductor.State.Records.{RunRecord, IdempotencyRecord}
use conductor.State.Spec.{
  StoreSpec, with_hash, with_new_run, with_results, with_response, with_claims, with_status,
  owned_status, Call, put_hash, put_run, put_products, put_response, claim, complete, fail,
  read_hash, read_run, read_response, perform, perform_all, Obeys, SpecTrace, no_calls, then_call,
}
use conductor.State.Memory.{
  MemoryStore, Shuffle, Shuffles, memory_store, in_map, or_new, get_product_hash,
  upsert_product_hash, insert_run, insert_run_products, get_idempotency, put_idempotency, get_run,
  claim_runs, complete_run, fail_run, set_status,
}
use conductor.State.Memory.Keyed.{IsKeyed, insert-IsKeyed}
use conductor.State.Memory.Views.{get_product_hash-upsert}
use conductor.State.Memory.Claims.{lookup-claim_runs, claim_runs-claimable, claim_runs-IsKeyed}
use conductor.State.Memory.Steps.{set_status-IsKeyed}

-- The response that is stored, expired or not.
unfoldable pub stored_response : ℕ → String → String → MemoryStore → Option IdempotencyRecord
stored_response t ep k s = in_map (lookup t s.idem) λ te. in_map (lookup ep te) λ eps. lookup k eps

-- The hash that is stored for a tenant and a product key.
unfoldable pub stored_hash : ℕ → String → MemoryStore → Option String
stored_hash t k s = in_map (lookup t s.product_hash) λ m. lookup k m

-- What the four maps stand for.
abbrev pub view : MemoryStore → StoreSpec
view s = record {
  hashes = λ t k. stored_hash t k s;
  runs = λ id. lookup id s.runs;
  products = λ id. lookup id s.run_products;
  responses = λ t ep k. stored_response t ep k s;
}

stored_response-put :
    (t u : ℕ) (ep fp k j : String) (rec : IdempotencyRecord) (s : MemoryStore)
    → stored_response u fp j (put_idempotency t ep k rec s)
      ≡ (if t == u && (ep == fp && k == j) then some rec else stored_response u fp j s)
unfolding stored_response put_idempotency lookup
stored_response-put t u ep fp k j rec s =
    let te = or_new (lookup t s.idem) in
    let eps = or_new (lookup ep te) in
    ground (
      arith,
      nat_eq_iff t u,
      eq_iff ep fp,
      eq_iff k j,
      lookup-insert t u (insert ep (insert k rec eps) te) s.idem,
      lookup-insert ep fp (insert k rec eps) te,
      lookup-insert k j rec eps,
    )

stored_hash-upsert :
    (t u : ℕ) (k j v : String) (s : MemoryStore)
    → stored_hash u j (upsert_product_hash t k v s)
      ≡ (if t == u && k == j then some v else stored_hash u j s)
unfolding stored_hash get_product_hash
stored_hash-upsert t u k j v s = get_product_hash-upsert t u k j v s

view-upsert :
    (t : ℕ) (k v : String) (s : MemoryStore)
    → view (upsert_product_hash t k v s) ≡ with_hash t k v (view s)
unfolding upsert_product_hash stored_response
view-upsert t k v s = λ i. record (view s) { hashes = λ u j. stored_hash-upsert t u k j v s i }

view-insert_run :
    (r : RunRecord) (s : MemoryStore) → view (insert_run r s) ≡ with_new_run r (view s)
unfolding insert_run stored_hash stored_response
view-insert_run r s = λ i. record (view s) { runs = λ id. lookup-insert r.run_id id r s.runs i }

view-insert_run_products :
    (id : String) (ps : List ProductProcessResult) (s : MemoryStore)
    → view (insert_run_products id ps s) ≡ with_results id ps (view s)
unfolding insert_run_products stored_hash stored_response
view-insert_run_products id ps s =
    λ i. record (view s) { products = λ jd. lookup-insert id jd ps s.run_products i }

view-put :
    (t : ℕ) (ep k : String) (rec : IdempotencyRecord) (s : MemoryStore)
    → view (put_idempotency t ep k rec s) ≡ with_response t ep k rec (view s)
unfolding put_idempotency stored_hash
view-put t ep k rec s =
    λ i. record (view s) { responses = λ u fp j. stored_response-put t u ep fp k j rec s i }

view-claim :
    (f : Shuffle) (limit : ℤ) (s : MemoryStore)
    → Shuffles f
    → IsKeyed s.runs
    → view (claim_runs f limit s).1 ≡ with_claims (claim_runs f limit s).0 (view s)
unfolding claim_runs stored_hash stored_response
view-claim f limit s shuffles keyed =
    λ i. record (view s) { runs = λ id. lookup-claim_runs f limit s id shuffles keyed i }

lookup-set_status :
    (t : ℕ) (id jd text : String) (s : MemoryStore) (o : Option RunRecord)
    → lookup id s.runs ≡ o
    → lookup jd (set_status t id text o s).runs
      ≡ (if id == jd then owned_status t text (lookup jd s.runs) else lookup jd s.runs)
lookup-set_status t id jd text s none e = ground (arith, eq_iff id jd, e)
lookup-set_status t id jd text s (some r) e =
    ground (arith, eq_iff id jd, e, lookup-insert id jd (record r { status = text }) s.runs)

set_status-rest :
    (t : ℕ) (id text : String) (s : MemoryStore) (o : Option RunRecord)
    → set_status t id text o s ≡ record s { runs = (set_status t id text o s).runs }
set_status-rest t id text s none = refl
set_status-rest t id text s (some r) = ground arith

view-set_status :
    (t : ℕ) (id text : String) (s : MemoryStore)
    → view (set_status t id text (lookup id s.runs) s) ≡ with_status t id text (view s)
unfolding stored_hash stored_response
view-set_status t id text s = ap view (set_status-rest t id text s (lookup id s.runs)) ∙ (λ i.
    record (view s) { runs = λ jd. lookup-set_status t id jd text s (lookup id s.runs) refl i })

module _ (f : Shuffle) (shuffles : Shuffles f) where
  perform-Obeys :
      (c : Call) (s : MemoryStore)
      → IsKeyed s.runs
      → Obeys c (perform (memory_store f) c s).0 (view s) (view (perform (memory_store f) c s).1)
  unfolding memory_store complete_run fail_run get_product_hash get_run get_idempotency stored_hash
      stored_response
  perform-Obeys (put_hash t k v) s keyed = (refl, view-upsert t k v s)
  perform-Obeys (put_run r) s keyed = (refl, view-insert_run r s)
  perform-Obeys (put_products id ps) s keyed = (refl, view-insert_run_products id ps s)
  perform-Obeys (put_response t ep k rec) s keyed = (refl, view-put t ep k rec s)
  perform-Obeys (claim limit) s keyed = (
    (claim_runs f limit s).0,
    refl,
    view-claim f limit s shuffles keyed,
    λ id c. claim_runs-claimable f limit s id shuffles keyed c,
  )
  perform-Obeys (complete t id) s keyed = (refl, view-set_status t id "completed" s)
  perform-Obeys (fail t id message) s keyed = (refl, view-set_status t id "failed" s)
  perform-Obeys (read_hash t k) s keyed = (refl, refl)
  perform-Obeys (read_run t id) s keyed = (ground arith, refl)
  perform-Obeys (read_response now t ep k) s keyed = (ground arith, refl)

  perform-IsKeyed :
      (c : Call) (s : MemoryStore) → IsKeyed s.runs → IsKeyed (perform (memory_store f) c s).1.runs
  unfolding memory_store upsert_product_hash insert_run insert_run_products put_idempotency
      complete_run fail_run
  perform-IsKeyed (put_hash t k v) s keyed = keyed
  perform-IsKeyed (put_run r) s keyed = insert-IsKeyed r.run_id r s.runs refl keyed
  perform-IsKeyed (put_products id ps) s keyed = keyed
  perform-IsKeyed (put_response t ep k rec) s keyed = keyed
  perform-IsKeyed (claim limit) s keyed = claim_runs-IsKeyed f limit s keyed
  perform-IsKeyed (complete t id) s keyed =
      set_status-IsKeyed t id "completed" s (lookup id s.runs) refl keyed
  perform-IsKeyed (fail t id message) s keyed =
      set_status-IsKeyed t id "failed" s (lookup id s.runs) refl keyed
  perform-IsKeyed (read_hash t k) s keyed = keyed
  perform-IsKeyed (read_run t id) s keyed = keyed
  perform-IsKeyed (read_response now t ep k) s keyed = keyed

  -- The store in memory implements the specification: whatever calls are made of it, with whatever
  -- arguments, each gets the reply that the specification gives, and leaves the state that the
  -- specification leaves. The calls are those that write, and those that read one entry.
  pub memory_store_refines :
      (calls : List Call) (s : MemoryStore)
      → IsKeyed s.runs
      → SpecTrace
          (view s)
          calls
          (perform_all (memory_store f) calls s).0
          (view (perform_all (memory_store f) calls s).1)
  unfolding perform_all
  memory_store_refines [] s keyed = no_calls
  memory_store_refines (c ∷ calls) s keyed =
      then_call (perform-Obeys c s keyed)
        (memory_store_refines calls (perform (memory_store f) c s).1 (perform-IsKeyed c s keyed))
