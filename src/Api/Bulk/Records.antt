-- ===== src/Api/Bulk/Records.antt =====
-- What the bulk handler leaves in the store in memory.
use mathlib.Core.Path.{subst}
use conductor.Prelude.{
  sym, ap, ◌∙◌, ℕ, ◌<◌, String, ◌≡◌, refl, ◌≢◌, ◌⊎◌, inl, inr, ◌↔◌, Bool, true, Option, none, some,
  List, [], ◌∷◌, Result, ok, err, arith, eq_iff, Bool-cases, Result-cases, if◌then◌else◌,
}
use conductor.Prelude.Equality.{◌==◌, string_instance, nat_instance}
use conductor.Prelude.Maps.{lookup, lookup-insert}
use conductor.Prelude.Text.{trim_space}
use conductor.Domain.{ProductDisposition, rejected, unchanged, enqueued}
use conductor.Host.{Host}
use conductor.Ingest.Decode.{Decoder}
use conductor.Ingest.Parse.{
  UnknownKeyWarning, set_to_sorted_slice, parse_product_object_allow_unknown, merge_keys,
}
use conductor.Ingest.Processor.{ProductProcessResult, ProcessOutput, process_product}
use conductor.State.Records.{RunRecord}
use conductor.State.Memory.{
  MemoryStore, Shuffle, memory_store, is_claimable, insert_run, insert_run_products,
  upsert_product_hash,
}
use conductor.Api.Context.{tenant_id}
use conductor.Api.Http.{Request, RequestBody, Response, Clock, Handler, header}
use conductor.Api.Upsert.{Encoder, Intake, run_record}
use conductor.Api.Upsert.Records.{store_run-memory, claimable_iff, tenant_id-ne-zero}
use conductor.Api.Bulk.{
  Gzip, BulkState, running, stopped, wrap_maybe_gzip, scan, take_line, take_result, count_received,
  persisted, persist_result, bulk_loop, no_output, finish, bulk_upsert_handler,
}

-- The runs and their results are as they were.
pub record KeepsRuns (s s' : MemoryStore) : Type 0 where
  pub runs : s'.runs ≡ s.runs
  pub run_products : s'.run_products ≡ s.run_products

KeepsRuns-refl : (s : MemoryStore) → KeepsRuns s s
KeepsRuns-refl s = record { runs = refl; run_products = refl }

KeepsRuns-trans : (s t u : MemoryStore) → KeepsRuns s t → KeepsRuns t u → KeepsRuns s u
KeepsRuns-trans s t u a b = record {
  runs = b.runs ∙ a.runs;
  run_products = b.run_products ∙ a.run_products;
}

module _ (h : Host) (d : Decoder) (f : Shuffle) (channels : List String) (t : ℕ) where
  persist_result-KeepsRuns :
      (res : ProductProcessResult) (valid : Bool) (s : MemoryStore)
      → KeepsRuns s (persist_result h d (memory_store f) channels t res valid s).1
  unfolding memory_store upsert_product_hash
  persist_result-KeepsRuns res valid s = go res.disposition
    where
      go :
          (di : ProductDisposition)
          → KeepsRuns s
              (persist_result h d
                (memory_store f)
                channels
                t
                (record res { disposition = di })
                valid
                s).1
      go rejected = record { runs = ground arith; run_products = ground arith }
      go unchanged = record { runs = ground arith; run_products = ground arith }
      go enqueued = record { runs = ground arith; run_products = ground arith }

  persisted-store :
      (out : ProcessOutput) (u : List String) (key : String) (q : Result (Unit {0}) × MemoryStore)
      → (persisted h d (memory_store f) channels t out u key q).1 ≡ q.1
  persisted-store out u key (ok _, s) = refl
  persisted-store out u key (err m, s) = refl

  take_result-KeepsRuns :
      (out : ProcessOutput) (u : List String) (v : Result (ProductProcessResult × Bool))
      (s : MemoryStore)
      → KeepsRuns s (take_result h d (memory_store f) channels t out u v s).1
  take_result-KeepsRuns out u (err m) s = KeepsRuns-refl s
  take_result-KeepsRuns out u (ok (res, valid)) s =
      rw
        (persisted-store _ u res.product_key
          (persist_result h d (memory_store f) channels t res valid s))
        (persist_result-KeepsRuns res valid s)

  take_line-KeepsRuns :
      (line : String) (out : ProcessOutput) (u : List String) (s : MemoryStore)
      → KeepsRuns s (take_line h d (memory_store f) channels t line out u s).1
  unfolding take_line
  take_line-KeepsRuns line out u s = elim (Bool-cases (trim_space line == "")) [
    | inl blank ↦ rw blank (KeepsRuns-refl s)
    | inr filled ↦ elim (Result-cases (parse_product_object_allow_unknown d (trim_space line))) [
      | inr (m, e) ↦ rw (filled, e) (KeepsRuns-refl s)
      | inl ((p, unk), e) ↦
          rw (filled, e)
            (take_result-KeepsRuns (count_received out) (merge_keys unk u)
              (process_product h p channels
                (some (λ key. (memory_store f).get_product_hash t key s)))
              s)
    ]
  ]

  pub bulk_loop-KeepsRuns :
      (lines : List String) (q : BulkState × MemoryStore)
      → KeepsRuns q.1 (bulk_loop h d (memory_store f) channels t lines q).1
  unfolding bulk_loop
  bulk_loop-KeepsRuns [] q = KeepsRuns-refl q.1
  bulk_loop-KeepsRuns (line ∷ lines) (stopped members, s) = KeepsRuns-refl s
  bulk_loop-KeepsRuns (line ∷ lines) (running out u, s) =
      let q = take_line h d (memory_store f) channels t line out u s in
      KeepsRuns-trans s q.1 (bulk_loop h d (memory_store f) channels t lines q).1
        (take_line-KeepsRuns line out u s) (bulk_loop-KeepsRuns lines q)

-- The handler over the store in memory.
abbrev pub uploading : Host → Encoder → Gzip → Intake → Shuffle → List String → Handler MemoryStore
uploading h encoder gz intake f channels =
    bulk_upsert_handler h encoder gz intake
      (record { store = some (memory_store f); enabled_channels = channels })

-- The warnings of a bulk run.
abbrev pub bulk_warnings : List String → UnknownKeyWarning
bulk_warnings unknown = record { unknown_keys = set_to_sorted_slice unknown }

-- A request that is answered with status 200: its lines have all been read, its run and its results
-- are in the store, no other run has changed, and a worker may claim the run exactly when it has
-- enqueued products.
pub record IsUploaded (h : Host) (gz : Gzip) (intake : Intake) (f : Shuffle)
    (channels : List String) (clock : Clock) (r : Request) (s : MemoryStore) (s' : MemoryStore)
    : Type 0 where
  pub id : String
  pub drawn : intake.new_run_id ≡ ok id
  pub reader : RequestBody
  pub wrapped : wrap_maybe_gzip h gz r.body (header "Content-Encoding" r) ≡ ok reader
  pub whole : (scan reader).1 ≡ none
  pub out : ProcessOutput
  pub unknown : List String
  pub hashed : MemoryStore
  pub looped :
      bulk_loop h intake.decoder
        (memory_store f)
        channels
        (tenant_id r.context)
        (scan reader).0
        (running no_output [], s)
      ≡ (running out unknown, hashed)
  pub run : RunRecord
  pub is_run : run ≡ run_record clock id (tenant_id r.context) (bulk_warnings unknown) out.summary
  pub runs : (jd : String) → lookup jd s'.runs ≡ (if id == jd then some run else lookup jd s.runs)
  pub products : lookup id s'.run_products ≡ some out.products
  pub claimable_iff : (is_claimable run ≡ true) ↔ (0 < out.summary.enqueued)

-- What follows the loop: a run is recorded, or the store stays as the loop has left it.
abbrev Recorded :
    Clock → String → ℕ → Option String → BulkState × MemoryStore → Response × MemoryStore → Type 0
Recorded clock id t failure q done =
    ((out : ProcessOutput) × (unknown : List String) × (failure ≡ none)
      × (q.0 ≡ running out unknown)
      × (done.0.status ≡ 200)
      × (done.1
          ≡ insert_run_products id out.products
              (insert_run (run_record clock id t (bulk_warnings unknown) out.summary) q.1)))
    ⊎ ((done.0.status ≢ 200) × (done.1 ≡ q.1))

finish-Recorded :
    (h : Host) (encoder : Encoder) (gz : Gzip) (f : Shuffle) (clock : Clock) (id : String) (t : ℕ)
    (failure : Option String) (q : BulkState × MemoryStore)
    → Recorded clock id t failure q (finish h encoder gz (memory_store f) clock id t failure q)
finish-Recorded h encoder gz f clock id t none (running out unknown, s) =
    let (status, left) =
      store_run-memory h encoder f clock id t (bulk_warnings unknown) out (none, s) refl in
    inl (out, unknown, refl, refl, status, left)
finish-Recorded h encoder gz f clock id t (some m) (running out unknown, s) =
    inr (λ e. omega arith, refl)
finish-Recorded h encoder gz f clock id t none (stopped members, s) = inr (λ e. omega arith, refl)
finish-Recorded h encoder gz f clock id t (some m) (stopped members, s) =
    inr (λ e. omega arith, refl)

module _ (h : Host) (encoder : Encoder) (gz : Gzip) (intake : Intake) (f : Shuffle)
    (channels : List String) (clock : Clock) (r : Request) (s : MemoryStore) where
  -- The two answers to a request.
  abbrev pub Answers : Response × MemoryStore → Type 0
  Answers done =
      ((done.0.status ≡ 200) × IsUploaded h gz intake f channels clock r s done.1)
      ⊎ ((done.0.status ≢ 200) × KeepsRuns s done.1)

  uploading-finish :
      (id : String) (reader : RequestBody)
      → intake.new_run_id ≡ ok id
      → wrap_maybe_gzip h gz r.body (header "Content-Encoding" r) ≡ ok reader
      → Answers (
          finish h encoder gz (memory_store f) clock id (tenant_id r.context) (scan reader).1 (
            bulk_loop h intake.decoder
              (memory_store f)
              channels
              (tenant_id r.context)
              (scan reader).0
              (running no_output [], s)))
  unfolding insert_run insert_run_products
  uploading-finish id reader drawn wrapped =
      let t = tenant_id r.context in
      let q =
        bulk_loop h intake.decoder (memory_store f) channels t (scan reader).0
          (running no_output [], s) in
      let kept =
        bulk_loop-KeepsRuns h intake.decoder f channels t (scan reader).0
          (running no_output [], s) in
      elim (finish-Recorded h encoder gz f clock id t (scan reader).1 q) [
        | inr (status, left) ↦ inr (
          status,
          record {
            runs = ap (λ v. v.runs) left ∙ kept.runs;
            run_products = ap (λ v. v.run_products) left ∙ kept.run_products;
          },
        )
        | inl (out, unknown, whole, ran, status, left) ↦
            let run = run_record clock id t (bulk_warnings unknown) out.summary in
            inl (
              status,
              record {
                id = id;
                drawn = drawn;
                reader = reader;
                wrapped = wrapped;
                whole = whole;
                out = out;
                unknown = unknown;
                hashed = q.1;
                looped = λ i. (ran i, q.1);
                run = run;
                is_run = refl;
                runs = λ jd.
                    ap (λ v. lookup jd v.runs) left
                    ∙ lookup-insert id jd run q.1.runs
                    ∙ ap (λ m. if id == jd then some run else lookup jd m) kept.runs;
                products =
                    ap (λ v. lookup id v.run_products) left
                    ∙ ground
                        (arith, eq_iff id id, lookup-insert id id out.products q.1.run_products);
                claimable_iff =
                    claimable_iff clock id t (bulk_warnings unknown) out
                      (tenant_id-ne-zero r.context);
              },
            )
      ]

  pub uploading-eq :
      (id : String) (reader : RequestBody)
      → (r.method == "POST") ≡ true
      → intake.new_run_id ≡ ok id
      → wrap_maybe_gzip h gz r.body (header "Content-Encoding" r) ≡ ok reader
      → uploading h encoder gz intake f channels clock r s
        ≡ finish h encoder gz (memory_store f) clock id (tenant_id r.context) (scan reader).1 (
            bulk_loop h intake.decoder
              (memory_store f)
              channels
              (tenant_id r.context)
              (scan reader).0
              (running no_output [], s))
  unfolding bulk_upsert_handler
  uploading-eq id reader post drawn wrapped = rw (post, drawn, wrapped) refl

  -- The bulk handler gives one of two answers: status 200, with the run and its results in the store,
  -- or another status, with the runs and the results as they were. In both the hashes of products may
  -- have been stored.
  pub bulk_upsert_handler_records : Answers (uploading h encoder gz intake f channels clock r s)
  unfolding bulk_upsert_handler
  bulk_upsert_handler_records = elim (Bool-cases (r.method == "POST")) [
    | inr other ↦ rw other (inr (λ e. omega arith, KeepsRuns-refl s))
    | inl post ↦ elim (Result-cases intake.new_run_id) [
      | inr (m, drawn) ↦ rw (post, drawn) (inr (λ e. omega arith, KeepsRuns-refl s))
      | inl (id, drawn) ↦
          elim (Result-cases (wrap_maybe_gzip h gz r.body (header "Content-Encoding" r))) [
            | inr (m, wrapped) ↦
                rw (post, drawn, wrapped) (inr (λ e. omega arith, KeepsRuns-refl s))
            | inl (reader, wrapped) ↦
                subst Answers (sym (uploading-eq id reader post drawn wrapped))
                  (uploading-finish id reader drawn wrapped)
          ]
    ]
  ]
