-- ===== src/State/Memory.antt =====
-- internal/state/memory_store.go and memory_runs_queue.go. The mutex makes each method one step.
pub mod Views
pub mod Listing
pub mod Keyed
pub mod Claims
pub mod Steps
pub mod Refine
use conductor.Prelude.{
  ℕ, zero, suc, ℤ, pos, negsuc, positive_or, String, Bool, true, false, not, ◌&&◌, Option, none,
  some, List, [], ◌∷◌, map, ltb, leb, if◌then◌else◌, length, take, keep, Permᴰ, ok,
}
use conductor.Prelude.Equality.{◌==◌, nat_instance, string_instance}
use conductor.Prelude.Maps.{Map, lookup, insert}
use conductor.Prelude.Sorting.{sort_by}
use conductor.Prelude.Order.{text_le}
use conductor.Ingest.Processor.{ProductProcessResult}
use conductor.State.Records.{RunRecord, RunClaim, IdempotencyRecord}
use conductor.State.Store.{Store}

pub record MemoryStore : Type 0 where
  pub product_hash : Map ℕ (Map String String)
  pub runs : Map String RunRecord
  pub run_products : Map String (List ProductProcessResult)
  pub idem : Map ℕ (Map String (Map String IdempotencyRecord))

-- `NewMemoryStore`
abbrev pub new_memory_store : MemoryStore
new_memory_store = record { product_hash = []; runs = []; run_products = []; idem = [] }

-- The order in which a `range` visits a map's values, and in which `sort.Slice`, which is not
-- stable, takes up elements that compare equal.
pub record Shuffle : Type 0 where
  pub runs : List RunRecord → List RunRecord
  pub products : List ProductProcessResult → List ProductProcessResult

pub record Shuffles (f : Shuffle) : Type 0 where
  pub runs : (l : List RunRecord) → Permᴰ (f.runs l) l
  pub products : (l : List ProductProcessResult) → Permᴰ (f.products l) l

-- The inner map of a key, or the new one that the method makes where the key has none.
abbrev pub or_new {ℓ κ} : {K : Type ℓ} {V : Type κ} → Option (Map K V) → Map K V
or_new none = []
or_new (some m) = m

abbrev pub in_map {ℓ κ} : {A : Type ℓ} {B : Type κ} → Option A → (A → Option B) → Option B
in_map none f = none
in_map (some a) f = f a

unfoldable pub get_product_hash : ℕ → String → MemoryStore → Option String
get_product_hash tenant_id product_key s =
    in_map (lookup tenant_id s.product_hash) (λ m. lookup product_key m)

unfoldable pub upsert_product_hash : ℕ → String → String → MemoryStore → MemoryStore
upsert_product_hash tenant_id product_key hash s =
    let m = or_new (lookup tenant_id s.product_hash) in
    record s { product_hash = insert tenant_id (insert product_key hash m) s.product_hash }

unfoldable pub insert_run : RunRecord → MemoryStore → MemoryStore
insert_run run s = record s { runs = insert run.run_id run s.runs }

unfoldable pub insert_run_products : String → List ProductProcessResult → MemoryStore → MemoryStore
insert_run_products run_id products s = record s {
  run_products = insert run_id products s.run_products;
}

abbrev unexpired : ℕ → IdempotencyRecord → Option IdempotencyRecord
unexpired now rec = if ltb rec.expires_at now then none else some rec

unfoldable pub get_idempotency : ℕ → ℕ → String → String → MemoryStore → Option IdempotencyRecord
get_idempotency now tenant_id endpoint idem_key_hash s =
    in_map (lookup tenant_id s.idem)
      λ te. in_map (lookup endpoint te) λ ep. in_map (lookup idem_key_hash ep) (unexpired now)

unfoldable pub put_idempotency : ℕ → String → String → IdempotencyRecord → MemoryStore → MemoryStore
put_idempotency tenant_id endpoint idem_key_hash rec s =
    let te = or_new (lookup tenant_id s.idem) in
    let ep = or_new (lookup endpoint te) in
    record s { idem = insert tenant_id (insert endpoint (insert idem_key_hash rec ep) te) s.idem }

abbrev pub values : Map String RunRecord → List RunRecord
values m = map (λ e. e.1) m

-- `if limit <= 0 || limit > len(out) { return out }; return out[:limit]`
abbrev pub limited {ℓ} : {A : Type ℓ} → ℤ → List A → List A
limited (pos zero) out = out
limited (pos (suc n)) out = if ltb (length out) (suc n) then out else take (suc n) out
limited (negsuc n) out = out

abbrev pub newest_first : RunRecord → RunRecord → Bool
newest_first a b = leb b.created_at a.created_at

abbrev pub oldest_first : RunRecord → RunRecord → Bool
oldest_first a b = leb a.created_at b.created_at

abbrev pub by_product_key : ProductProcessResult → ProductProcessResult → Bool
by_product_key a b = text_le a.product_key b.product_key

abbrev pub of_tenant : ℕ → RunRecord → Bool
of_tenant tenant_id r = r.tenant_id == tenant_id

abbrev own_run : ℕ → RunRecord → Option RunRecord
own_run tenant_id r = if r.tenant_id == tenant_id then some r else none

unfoldable pub get_run : ℕ → String → MemoryStore → Option RunRecord
get_run tenant_id run_id s = in_map (lookup run_id s.runs) (own_run tenant_id)

module _ (f : Shuffle) where
  unfoldable pub list_runs : ℕ → ℤ → MemoryStore → List RunRecord
  list_runs tenant_id limit s =
      limited limit (sort_by newest_first (keep (of_tenant tenant_id) (f.runs (values s.runs))))

  unfoldable pub list_run_products : String → ℤ → MemoryStore → List ProductProcessResult
  list_run_products run_id limit s = elim (lookup run_id s.run_products) [
    | none ↦ []
    | some items ↦ limited limit (sort_by by_product_key (f.products items))
  ]

-- memory_runs_queue.go
abbrev pub is_claimable : RunRecord → Bool
is_claimable r = r.status == "has_changes" && (r.push_triggered && not (r.tenant_id == 0))

-- The loop that marks the candidates: the store's runs, and the claims in order.
unfoldable pub mark_claimed : List RunRecord → Map String RunRecord → Map String RunRecord
mark_claimed [] runs = runs
mark_claimed (r ∷ rs) runs =
    mark_claimed rs (insert r.run_id (record r { status = "processing" }) runs)

abbrev pub claim_of : RunRecord → RunClaim
claim_of r = record { run_id = r.run_id; tenant_id = r.tenant_id }

module _ (f : Shuffle) where
  -- The oldest claimable runs, at most `limit` of them.
  unfoldable pub candidates : ℤ → MemoryStore → List RunRecord
  candidates limit s =
      let n = positive_or 10 limit in
      let cs = sort_by oldest_first (keep is_claimable (f.runs (values s.runs))) in
      if ltb n (length cs) then take n cs else cs

  unfoldable pub claim_runs : ℤ → MemoryStore → List RunClaim × MemoryStore
  claim_runs limit s =
      let cs = candidates limit s in (map claim_of cs, record s { runs = mark_claimed cs s.runs })

-- `CompleteRun` and `FailRun` differ in the status that they write.
abbrev set_status : ℕ → String → String → Option RunRecord → MemoryStore → MemoryStore
set_status tenant_id run_id status none s = s
set_status tenant_id run_id status (some r) s =
    if r.tenant_id == tenant_id
    then record s { runs = insert run_id (record r { status = status }) s.runs }
    else s

unfoldable pub complete_run : ℕ → String → MemoryStore → MemoryStore
complete_run tenant_id run_id s = set_status tenant_id run_id "completed" (lookup run_id s.runs) s

unfoldable pub fail_run : ℕ → String → String → MemoryStore → MemoryStore
fail_run tenant_id run_id message s = set_status tenant_id run_id "failed" (lookup run_id s.runs) s

-- The store in memory never fails.
unfoldable pub memory_store : Shuffle → Store MemoryStore
memory_store f = record {
  get_product_hash = λ t k s. ok (get_product_hash t k s);
  upsert_product_hash = λ t k v s. (ok tt, upsert_product_hash t k v s);
  insert_run = λ r s. (ok tt, insert_run r s);
  insert_run_products = λ id ps s. (ok tt, insert_run_products id ps s);
  get_idempotency = λ now t ep k s. ok (get_idempotency now t ep k s);
  put_idempotency = λ t ep k rec s. (ok tt, put_idempotency t ep k rec s);
  list_runs = λ t limit s. ok (list_runs f t limit s);
  get_run = λ t id s. ok (get_run t id s);
  list_run_products = λ id limit s. ok (list_run_products f id limit s);
  claim_runs = λ limit s. let (cs, s') = claim_runs f limit s in (ok cs, s');
  complete_run = λ t id s. (ok tt, complete_run t id s);
  fail_run = λ t id message s. (ok tt, fail_run t id message s);
}
