-- ===== src/Api/Upsert/Records.antt =====
-- What the upsert handler leaves in the store in memory.
use conductor.Prelude.{
  ap, ◌∙◌, ℕ, ◌<◌, String, ◌≡◌, refl, ◌≢◌, ◌⊎◌, inl, inr, ◌↔◌, true, Option, none, some, List, [],
  ◌∷◌, ok, arith, eq_iff, nat_eq_iff, Bool-cases, Option-cases, Result-cases, if◌then◌else◌,
}
use conductor.Prelude.Equality.{◌==◌, string_instance, nat_instance}
use conductor.Prelude.Maps.{lookup, lookup-insert}
use conductor.Host.{Host}
use conductor.Ingest.Parse.{UnknownKeyWarning, ParseResult, parse_products_allow_unknown}
use conductor.Ingest.Processor.{ProductProcessResult, ProcessOutput, process_products}
use conductor.State.Records.{RunRecord}
use conductor.State.Memory.{
  MemoryStore, Shuffle, memory_store, is_claimable, insert_run, insert_run_products,
  upsert_product_hash, get_product_hash,
}
use conductor.Api.Context.{Context, or_default, tenant_id}
use conductor.Api.Http.{Request, Response, Clock, Handler}
use conductor.Api.Upsert.{
  Encoder, Intake, run_record, persist_hashes, upsert_handler, store_run, is_push_triggered,
}

-- Storing the hashes succeeds, and touches neither the runs nor their results.
pub record IsPersisted (f : Shuffle) (t : ℕ) (ps : List ProductProcessResult) (s : MemoryStore)
    : Type 0 where
  pub stored : (persist_hashes (memory_store f) t ps s).0 ≡ none
  pub runs : (persist_hashes (memory_store f) t ps s).1.runs ≡ s.runs
  pub run_products : (persist_hashes (memory_store f) t ps s).1.run_products ≡ s.run_products

pub persist_hashes-IsPersisted :
    (f : Shuffle) (t : ℕ) (ps : List ProductProcessResult) (s : MemoryStore) → IsPersisted f t ps s
unfolding persist_hashes memory_store upsert_product_hash
persist_hashes-IsPersisted f t [] s = record { stored = refl; runs = refl; run_products = refl }
persist_hashes-IsPersisted f t (p ∷ ps) s =
    let kept = persist_hashes-IsPersisted f t ps s in
    let written =
      persist_hashes-IsPersisted f t ps (upsert_product_hash t p.product_key p.hash s) in
    record { stored = ground arith; runs = ground arith; run_products = ground arith }

pub claimable_iff :
    (clock : Clock) (id : String) (t : ℕ) (w : _) (out : ProcessOutput)
    → t ≢ 0
    → (is_claimable (run_record clock id t w out.summary) ≡ true) ↔ (0 < out.summary.enqueued)
claimable_iff clock id t w out owned = elim (Bool-cases (is_push_triggered out.summary)) [
  | inl pushed ↦ rw pushed (ground (arith, nat_eq_iff t 0))
  | inr quiet ↦ elim (Bool-cases (out.summary.rejected == 0)) [
    | inl clean ↦ rw (quiet, clean) (ground arith)
    | inr faulty ↦ rw (quiet, faulty) (ground arith)
  ]
]

pub tenant_id-ne-zero : (ctx : Context) → tenant_id ctx ≢ 0
unfolding tenant_id
tenant_id-ne-zero ctx = go ctx.tenant_value
  where
    go : (o : Option ℕ) → or_default o ≢ 0
    go none e = omega arith
    go (some t) e = ground arith

-- The handler over the store in memory.
abbrev pub upserting : Host → Encoder → Intake → Shuffle → List String → Handler MemoryStore
upserting h encoder intake f channels =
    upsert_handler h encoder intake
      (record { store = some (memory_store f); enabled_channels = channels })

-- A request that is answered with status 200: its run and its results are in the store, no other
-- run has changed, and a worker may claim the run exactly when it has enqueued products.
pub record IsRecorded (h : Host) (intake : Intake) (channels : List String) (clock : Clock)
    (r : Request) (s : MemoryStore) (resp : Response) (s' : MemoryStore) : Type 0 where
  pub id : String
  pub drawn : intake.new_run_id ≡ ok id
  pub whole : r.body.failure ≡ none
  pub parsed : ParseResult
  pub read : parse_products_allow_unknown intake.decoder r.body.bytes ≡ ok parsed
  pub out : ProcessOutput
  pub processed :
      process_products h parsed.products channels
        (some (λ key. ok (get_product_hash (tenant_id r.context) key s)))
      ≡ ok out
  pub status : resp.status ≡ 200
  pub run : RunRecord
  pub is_run : run ≡ run_record clock id (tenant_id r.context) parsed.warnings out.summary
  pub runs : (jd : String) → lookup jd s'.runs ≡ (if id == jd then some run else lookup jd s.runs)
  pub products : lookup id s'.run_products ≡ some out.products
  pub claimable_iff : (is_claimable run ≡ true) ↔ (0 < out.summary.enqueued)

pub store_run-memory :
    (h : Host) (encoder : Encoder) (f : Shuffle) (clock : Clock) (id : String) (t : ℕ)
    (warnings : UnknownKeyWarning) (out : ProcessOutput)
    (q : Option (String × String) × MemoryStore)
    → q.0 ≡ none
    → let done = store_run h encoder (memory_store f) clock id t warnings out q in
      let run = run_record clock id t warnings out.summary in
      (done.0.status ≡ 200) × (done.1 ≡ insert_run_products id out.products (insert_run run q.1))
unfolding memory_store
store_run-memory h encoder f clock id t warnings out (none, s) e = (refl, refl)
store_run-memory h encoder f clock id t warnings out (some m, s) e = cc

module _ (h : Host) (encoder : Encoder) (intake : Intake) (f : Shuffle) (channels : List String)
    (clock : Clock) (r : Request) (s : MemoryStore) where
  -- The handler on a request whose body can be read and processed.
  upserting-store_run :
      (id : String) (parsed : ParseResult) (out : ProcessOutput)
      → (r.method == "POST") ≡ true
      → intake.new_run_id ≡ ok id
      → r.body.failure ≡ none
      → parse_products_allow_unknown intake.decoder r.body.bytes ≡ ok parsed
      → process_products h parsed.products channels
          (some (λ key. ok (get_product_hash (tenant_id r.context) key s)))
        ≡ ok out
      → upserting h encoder intake f channels clock r s
        ≡ store_run h encoder
            (memory_store f)
            clock
            id
            (tenant_id r.context)
            parsed.warnings
            out
            (persist_hashes (memory_store f) (tenant_id r.context) out.products s)
  unfolding upsert_handler memory_store
  upserting-store_run id parsed out post drawn whole read processed =
      rw (post, drawn, whole, read, processed) refl

  recorded :
      (id : String) (parsed : ParseResult) (out : ProcessOutput)
      → (r.method == "POST") ≡ true
      → intake.new_run_id ≡ ok id
      → r.body.failure ≡ none
      → parse_products_allow_unknown intake.decoder r.body.bytes ≡ ok parsed
      → process_products h parsed.products channels
          (some (λ key. ok (get_product_hash (tenant_id r.context) key s)))
        ≡ ok out
      → IsRecorded h intake channels clock r s
          (upserting h encoder intake f channels clock r s).0
          (upserting h encoder intake f channels clock r s).1
  unfolding insert_run insert_run_products
  recorded id parsed out post drawn whole read processed =
      let t = tenant_id r.context in
      let run = run_record clock id t parsed.warnings out.summary in
      let q = persist_hashes (memory_store f) t out.products s in
      let p = persist_hashes-IsPersisted f t out.products s in
      let e = upserting-store_run id parsed out post drawn whole read processed in
      let (status, left) = store_run-memory h encoder f clock id t parsed.warnings out q p.stored in
      record {
        id = id;
        drawn = drawn;
        whole = whole;
        parsed = parsed;
        read = read;
        out = out;
        processed = processed;
        run = run;
        is_run = refl;
        status = ap (λ v. v.0.status) e ∙ status;
        runs = λ jd.
            ap (λ v. lookup jd v.1.runs) e
            ∙ ap (λ v. lookup jd v.runs) left
            ∙ lookup-insert id jd run q.1.runs
            ∙ ap (λ m. if id == jd then some run else lookup jd m) p.runs;
        products =
            ap (λ v. lookup id v.1.run_products) e
            ∙ ap (λ v. lookup id v.run_products) left
            ∙ ground (arith, eq_iff id id, lookup-insert id id out.products q.1.run_products);
        claimable_iff = claimable_iff clock id t parsed.warnings out (tenant_id-ne-zero r.context);
      }

  -- The handler gives one of two answers: status 200, with the run and its results in the store, or
  -- another status, with the store as it was.
  pub upsert_handler_records :
      IsRecorded h intake channels clock r s
        (upserting h encoder intake f channels clock r s).0
        (upserting h encoder intake f channels clock r s).1
      ⊎ (((upserting h encoder intake f channels clock r s).0.status ≢ 200)
          × ((upserting h encoder intake f channels clock r s).1 ≡ s))
  unfolding upsert_handler memory_store
  upsert_handler_records = elim (Bool-cases (r.method == "POST")) [
    | inr other ↦ inr (rw other (λ e. omega arith), rw other refl)
    | inl post ↦ elim (Result-cases intake.new_run_id) [
      | inr (m, drawn) ↦ inr (rw (post, drawn) (λ e. omega arith), rw (post, drawn) refl)
      | inl (id, drawn) ↦ elim (Option-cases r.body.failure) [
        | inr (m, cut) ↦ inr (rw (post, drawn, cut) (λ e. omega arith), rw (post, drawn, cut) refl)
        | inl whole ↦
            elim (Result-cases (parse_products_allow_unknown intake.decoder r.body.bytes)) [
              | inr (m, read) ↦ inr (
                rw (post, drawn, whole, read) (λ e. omega arith),
                rw (post, drawn, whole, read) refl,
              )
              | inl (parsed, read) ↦
                  elim (Result-cases (
                    process_products h parsed.products channels
                      (some (λ key. ok (get_product_hash (tenant_id r.context) key s))))) [
                        | inl (out, processed) ↦
                            inl (recorded id parsed out post drawn whole read processed)
                        | inr (m, processed) ↦ inr (
                          rw (post, drawn, whole, read, processed) (λ e. omega arith),
                          rw (post, drawn, whole, read, processed) refl,
                        )
                      ]
            ]
      ]
    ]
  ]
