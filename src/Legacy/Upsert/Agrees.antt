-- ===== src/Legacy/Upsert/Agrees.antt =====
-- The older upsert handler against the one of internal/api/handlers.
use mathlib.Core.Path.{subst, fun_ext}
use conductor.Prelude.{
  ap, ℕ, String, ◌≡◌, refl, sym, Bool-cases, inl, inr, Option, none, some, List, [], ◌∷◌, Result,
  ok, err, arith, nat_eq_iff, if◌then◌else◌,
}
use conductor.Prelude.Equality.{◌==◌, string_instance}
use conductor.Prelude.Maps.{lookup, lookup-insert}
use conductor.Domain.{ProductDisposition, rejected, unchanged, enqueued}
use conductor.Host.{Host}
use conductor.Ingest.Parse.{UnknownKeyWarning, ParseResult, parse_products_allow_unknown}
use conductor.Ingest.Processor.{ProductProcessResult, ProcessOutput, process_products}
use conductor.State.Memory.{
  MemoryStore, Shuffle, memory_store, get_product_hash, insert_run, insert_run_products,
}
use conductor.State.Memory.Views.{get_product_hash-upsert}
use conductor.Api.Context.{tenant_id}
use conductor.Api.Http.{Request, Response, Clock}
use conductor.Api.Upsert.{
  Encoder, Intake, persist_hashes, upsert_handler, store_run, store_output, process_parsed,
  read_body, draw_run_id,
}
use conductor.Api.Upsert.Again.{after, persisted-after, stored_hash}
use conductor.Api.Upsert.Records.{upserting, persist_hashes-IsPersisted}
use conductor.Legacy.Stores.{MemoryHashStore, get_hash}
use conductor.Legacy.Upsert.{
  set_hashes, set_result, legacy_upsert_handler, run_answer, answer_output, answer_parsed,
  answer_body, answer_id,
}

-- The older store holds the hashes of the tenant.
pub record SameHashes (t : ℕ) (old : MemoryHashStore) (s : MemoryStore) : Type 0 where
  pub same : (key : String) → lookup key old.hashes ≡ get_product_hash t key s

pub get_hash-stored_hash :
    (t : ℕ) (old : MemoryHashStore) (s : MemoryStore)
    → SameHashes t old s
    → get_hash old ≡ stored_hash t s
get_hash-stored_hash t old s a = fun_ext (λ key. ap ok (a.same key))

-- One turn of the older loop.
abbrev set_one : ProductProcessResult → MemoryHashStore → MemoryHashStore
set_one pr old = if pr.hash == "" then old else set_result pr pr.disposition old

set_one-SameHashes :
    (f : Shuffle) (t : ℕ) (pr : ProductProcessResult) (old : MemoryHashStore) (s : MemoryStore)
    → SameHashes t old s
    → SameHashes t (set_one pr old) (after f t pr s)
set_one-SameHashes f t pr old s a = record { same = λ key. go key pr.disposition }
  where
    go :
        (key : String) (di : ProductDisposition)
        → lookup key (set_one (record pr { disposition = di }) old).hashes
          ≡ get_product_hash t key (after f t (record pr { disposition = di }) s)
    go key rejected = ground (arith, a.same key)
    go key unchanged = ground (
      arith,
      a.same key,
      nat_eq_iff t t,
      lookup-insert pr.product_key key pr.hash old.hashes,
      get_product_hash-upsert t t pr.product_key key pr.hash s,
    )
    go key enqueued = ground (
      arith,
      a.same key,
      nat_eq_iff t t,
      lookup-insert pr.product_key key pr.hash old.hashes,
      get_product_hash-upsert t t pr.product_key key pr.hash s,
    )

set_hashes-SameHashes :
    (f : Shuffle) (t : ℕ) (ps : List ProductProcessResult) (old : MemoryHashStore) (s : MemoryStore)
    → SameHashes t old s
    → SameHashes t (set_hashes ps old) (persist_hashes (memory_store f) t ps s).1
unfolding set_hashes persist_hashes
set_hashes-SameHashes f t [] old s a = a
set_hashes-SameHashes f t (p ∷ ps) old s a =
    subst (SameHashes t (set_hashes ps (set_one p old))) (sym (persisted-after f t p ps s)) (
      set_hashes-SameHashes f t ps (set_one p old) (after f t p s)
        (set_one-SameHashes f t p old s a))

-- Two handlers give the same response, and leave the same hashes.
pub record Agree (t : ℕ) (q : Response × MemoryHashStore) (p : Response × MemoryStore)
    : Type 0 where
  pub response : q.0 ≡ p.0
  pub hashes : SameHashes t q.1 p.1

module _ (h : Host) (encoder : Encoder) (channels : List String) (f : Shuffle) (clock : Clock)
    (t : ℕ) where
  pub store_run-Agree :
      (id : String) (w : UnknownKeyWarning) (out : ProcessOutput) (old : MemoryHashStore)
      (q : Option (String × String) × MemoryStore)
      → q.0 ≡ none
      → SameHashes t old q.1
      → Agree t
          (run_answer h encoder channels id w out, old)
          (store_run h encoder (memory_store f) clock id t w out q)
  unfolding memory_store insert_run insert_run_products get_product_hash
  store_run-Agree id w out old (some m, s) e a = cc
  store_run-Agree id w out old (none, s) e a = record {
    response = refl;
    hashes = record { same = a.same };
  }

  output-Agree :
      (id : String) (w : UnknownKeyWarning) (m : Result ProcessOutput) (old : MemoryHashStore)
      (s : MemoryStore)
      → SameHashes t old s
      → Agree t
          (answer_output h encoder channels id w m old)
          (store_output h encoder (memory_store f) clock id t w m s)
  output-Agree id w (err m) old s a = record { response = refl; hashes = a }
  output-Agree id w (ok out) old s a =
      store_run-Agree id w out (set_hashes out.products old)
        (persist_hashes (memory_store f) t out.products s)
        (persist_hashes-IsPersisted f t out.products s).stored
        (set_hashes-SameHashes f t out.products old s a)

  parsed-Agree :
      (id : String) (m : Result ParseResult) (old : MemoryHashStore) (s : MemoryStore)
      → SameHashes t old s
      → Agree t
          (answer_parsed h encoder channels id m old)
          (process_parsed h encoder (memory_store f) channels clock id t m s)
  unfolding memory_store
  parsed-Agree id (err m) old s a = record { response = refl; hashes = a }
  parsed-Agree id (ok parsed) old s a = rw (get_hash-stored_hash t old s a) (
      output-Agree id parsed.warnings
        (process_products h parsed.products channels (some (stored_hash t s))) old s a)

  body-Agree :
      (intake : Intake) (r : Request) (id : String) (failure : Option String)
      (old : MemoryHashStore) (s : MemoryStore)
      → tenant_id r.context ≡ t
      → SameHashes t old s
      → Agree t
          (answer_body h encoder channels intake r id failure old)
          (read_body h encoder intake (memory_store f) channels clock r id failure s)
  body-Agree intake r id (some m) old s e a = record { response = refl; hashes = a }
  body-Agree intake r id none old s e a =
      rw e (parsed-Agree id (parse_products_allow_unknown intake.decoder r.body.bytes) old s a)

  id-Agree :
      (intake : Intake) (r : Request) (m : Result String) (old : MemoryHashStore) (s : MemoryStore)
      → tenant_id r.context ≡ t
      → SameHashes t old s
      → Agree t
          (answer_id h encoder channels intake r m old)
          (draw_run_id h encoder intake (memory_store f) channels clock r m s)
  id-Agree intake r (err m) old s e a = record { response = refl; hashes = a }
  id-Agree intake r (ok id) old s e a = body-Agree intake r id r.body.failure old s e a

-- The older handler gives the same response as the handler of the API over the store in memory, if
-- its store holds the hashes of the request's tenant, and afterwards it holds them again.
pub legacy_upsert_handler-Agree :
    (h : Host) (encoder : Encoder) (channels : List String) (f : Shuffle) (intake : Intake)
    (clock : Clock) (r : Request) (old : MemoryHashStore) (s : MemoryStore)
    → SameHashes (tenant_id r.context) old s
    → Agree
        (tenant_id r.context)
        (legacy_upsert_handler h encoder channels intake clock r old)
        (upserting h encoder intake f channels clock r s)
unfolding legacy_upsert_handler upsert_handler
legacy_upsert_handler-Agree h encoder channels f intake clock r old s a =
    elim (Bool-cases (r.method == "POST")) [
      | inl post ↦ rw post (
          id-Agree h encoder channels f clock (tenant_id r.context) intake r intake.new_run_id old s
            refl a)
      | inr other ↦ rw other (record { response = refl; hashes = a })
    ]
