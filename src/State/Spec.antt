-- ===== src/State/Spec.antt =====
-- What a store promises, whatever it keeps its data in: a hash for each tenant and product key, a run
-- and its results for each run id, and a response for each tenant, endpoint and key.
use conductor.Prelude.{
  ℕ, String, ◌≡◌, true, ◌&&◌, Option, none, some, List, [], ◌∷◌, ltb, if◌then◌else◌, ℤ, Result, ok,
  ◌>>=◌,
}
use conductor.Prelude.Equality.{◌==◌, nat_instance, string_instance}
use conductor.Ingest.Processor.{ProductProcessResult}
use conductor.State.Records.{RunRecord, RunClaim, IdempotencyRecord}
use conductor.State.Store.{Store}
use conductor.State.Memory.{is_claimable}
use conductor.State.Memory.Claims.{is_claimed, processing}

pub record StoreSpec : Type 0 where
  pub hashes : ℕ → String → Option String
  pub runs : String → Option RunRecord
  pub products : String → Option (List ProductProcessResult)
  pub responses : ℕ → String → String → Option IdempotencyRecord

abbrev pub with_hash : ℕ → String → String → StoreSpec → StoreSpec
with_hash t k v a = record a { hashes = λ u j. if t == u && k == j then some v else a.hashes u j }

abbrev pub with_new_run : RunRecord → StoreSpec → StoreSpec
with_new_run run a = record a { runs = λ id. if run.run_id == id then some run else a.runs id }

abbrev pub with_results : String → List ProductProcessResult → StoreSpec → StoreSpec
with_results id ps a = record a { products = λ jd. if id == jd then some ps else a.products jd }

abbrev pub with_response : ℕ → String → String → IdempotencyRecord → StoreSpec → StoreSpec
with_response t ep k rec a = record a {
  responses = λ u fp j. if t == u && (ep == fp && k == j) then some rec else a.responses u fp j;
}

-- The claimed runs are in work.
abbrev pub with_claims : List RunClaim → StoreSpec → StoreSpec
with_claims cs a = record a {
  runs = λ id. if is_claimed id cs then processing (a.runs id) else a.runs id;
}

-- A run of the tenant takes a status.
abbrev pub owned_status : ℕ → String → Option RunRecord → Option RunRecord
owned_status t status none = none
owned_status t status (some r) =
    if r.tenant_id == t then some (record r { status = status }) else some r

abbrev pub with_status : ℕ → String → String → StoreSpec → StoreSpec
with_status t id status a = record a {
  runs = λ jd. if id == jd then owned_status t status (a.runs jd) else a.runs jd;
}

-- Every claimed run waits for a worker.
abbrev pub AreClaimable : List RunClaim → StoreSpec → Type 0
AreClaimable cs a =
    (id : String)
    → is_claimed id cs ≡ true
    → (r : RunRecord) × (a.runs id ≡ some r) × (is_claimable r ≡ true)

-- What a tenant reads.
abbrev pub owned_run : ℕ → Option RunRecord → Option RunRecord
owned_run t none = none
owned_run t (some r) = if r.tenant_id == t then some r else none

abbrev pub fresh_response : ℕ → Option IdempotencyRecord → Option IdempotencyRecord
fresh_response now none = none
fresh_response now (some rec) = if ltb rec.expires_at now then none else some rec

-- The calls of a store that write, and those that read one entry, with their arguments.
pub data Call : Type 0 where
  put_hash : ℕ → String → String → Call
  put_run : RunRecord → Call
  put_products : String → List ProductProcessResult → Call
  put_response : ℕ → String → String → IdempotencyRecord → Call
  claim : ℤ → Call
  complete : ℕ → String → Call
  fail : ℕ → String → String → Call
  read_hash : ℕ → String → Call
  read_run : ℕ → String → Call
  read_response : ℕ → ℕ → String → String → Call

pub data Reply : Type 0 where
  done : Reply
  claimed : List RunClaim → Reply
  hash_is : Option String → Reply
  run_is : Option RunRecord → Reply
  response_is : Option IdempotencyRecord → Reply

-- A call of a store, and calls one after the other.
module _ {S : Type 0} (store : Store S) where
  abbrev acknowledged : Result (Unit {0}) × S → Result Reply × S
  acknowledged (m, s) = (do _ ← m; ok done, s)

  abbrev handed_out : Result (List RunClaim) × S → Result Reply × S
  handed_out (m, s) = (do cs ← m; ok (claimed cs), s)

  abbrev pub perform : Call → S → Result Reply × S
  perform (put_hash t k v) s = acknowledged (store.upsert_product_hash t k v s)
  perform (put_run r) s = acknowledged (store.insert_run r s)
  perform (put_products id ps) s = acknowledged (store.insert_run_products id ps s)
  perform (put_response t ep k rec) s = acknowledged (store.put_idempotency t ep k rec s)
  perform (claim limit) s = handed_out (store.claim_runs limit s)
  perform (complete t id) s = acknowledged (store.complete_run t id s)
  perform (fail t id message) s = acknowledged (store.fail_run t id message s)
  perform (read_hash t k) s = (do o ← store.get_product_hash t k s; ok (hash_is o), s)
  perform (read_run t id) s = (do o ← store.get_run t id s; ok (run_is o), s)
  perform (read_response now t ep k) s =
      (do o ← store.get_idempotency now t ep k s; ok (response_is o), s)

  unfoldable pub perform_all : List Call → S → List (Result Reply) × S
  perform_all [] s = ([], s)
  perform_all (c ∷ cs) s =
      let (reply, s') = perform c s in
      let (replies, s'') = perform_all cs s' in (reply ∷ replies, s'')

-- What the specification asks of a call: its reply, and the state that it leaves.
abbrev pub Obeys : Call → Result Reply → StoreSpec → StoreSpec → Type 0
Obeys (put_hash t k v) m a b = (m ≡ ok done) × (b ≡ with_hash t k v a)
Obeys (put_run r) m a b = (m ≡ ok done) × (b ≡ with_new_run r a)
Obeys (put_products id ps) m a b = (m ≡ ok done) × (b ≡ with_results id ps a)
Obeys (put_response t ep k rec) m a b = (m ≡ ok done) × (b ≡ with_response t ep k rec a)
Obeys (claim limit) m a b =
    (cs : List RunClaim) × (m ≡ ok (claimed cs)) × (b ≡ with_claims cs a) × AreClaimable cs a
Obeys (complete t id) m a b = (m ≡ ok done) × (b ≡ with_status t id "completed" a)
Obeys (fail t id message) m a b = (m ≡ ok done) × (b ≡ with_status t id "failed" a)
Obeys (read_hash t k) m a b = (m ≡ ok (hash_is (a.hashes t k))) × (b ≡ a)
Obeys (read_run t id) m a b = (m ≡ ok (run_is (owned_run t (a.runs id)))) × (b ≡ a)
Obeys (read_response now t ep k) m a b =
    (m ≡ ok (response_is (fresh_response now (a.responses t ep k)))) × (b ≡ a)

-- Calls one after the other, each with the reply that it gets.
pub data SpecTrace : StoreSpec → List Call → List (Result Reply) → StoreSpec → Type 0 where
  no_calls : {a : StoreSpec} → SpecTrace a [] [] a
  then_call :
      {a b d : StoreSpec} {c : Call} {m : Result Reply} {cs : List Call} {ms : List (Result Reply)}
      → Obeys c m a b
      → SpecTrace b cs ms d
      → SpecTrace a (c ∷ cs) (m ∷ ms) d
