-- ===== src/Api/Server/Uploads.antt =====
-- What the bulk handler does to the store in memory is a sequence of its methods' steps.
use conductor.Prelude.{
  ap, ◌∙◌, ℕ, String, Bool, true, false, ◌≡◌, refl, Bool-cases, inl, inr, Option, none, some, List,
  [], ◌∷◌, Result, ok, err,
}
use conductor.Prelude.Equality.{◌==◌, string_instance}
use conductor.Prelude.Maps.{lookup}
use conductor.Prelude.Text.{trim_space}
use conductor.Domain.{Product, ProductDisposition, rejected, unchanged, enqueued}
use conductor.Host.{Host}
use conductor.Ingest.Decode.{Decoder}
use conductor.Ingest.Parse.{parse_product_object_allow_unknown, merge_keys, set_to_sorted_slice}
use conductor.Ingest.Processor.{ProductProcessResult, ProcessOutput, process_product}
use conductor.State.Memory.{MemoryStore, Shuffle, memory_store}
use conductor.State.Memory.Steps.{Reach, here, next, upsert}
use conductor.Api.Context.{tenant_id}
use conductor.Api.Http.{Request, RequestBody, Clock}
use conductor.Api.Upsert.{Encoder, Intake, persist_hash}
use conductor.Api.Bulk.{
  Gzip, BulkState, running, stopped, scan, take_line, take_parsed, take_result, persisted,
  persist_result, count_received, bulk_loop, no_output, finish, read_lines, draw_run_id,
  bulk_upsert_handler,
}
use conductor.Api.Bulk.Records.{uploading, bulk_loop-KeepsRuns}
use conductor.Api.Server.Reaches.{Reach-trans, IsFresh, store_run-Reach}

module _ (h : Host) (d : Decoder) (f : Shuffle) (channels : List String) (t : ℕ) where
  persist_hash-Reach :
      (key hash : String) (di : ProductDisposition) (s : MemoryStore)
      → Reach f s (persist_hash (memory_store f) t key hash di s).1
  unfolding memory_store
  persist_hash-Reach key hash rejected s = here
  persist_hash-Reach key hash unchanged s = next here (upsert t key hash s)
  persist_hash-Reach key hash enqueued s = next here (upsert t key hash s)

  persist_result-Reach :
      (res : ProductProcessResult) (valid : Bool) (s : MemoryStore)
      → Reach f s (persist_result h d (memory_store f) channels t res valid s).1
  persist_result-Reach res false s = here
  persist_result-Reach res true s = elim (Bool-cases (res.hash == "")) [
    | inl empty ↦ rw empty here
    | inr filled ↦ rw filled (persist_hash-Reach res.product_key res.hash res.disposition s)
  ]

  persisted-Reach :
      (out : ProcessOutput) (u : List String) (key : String) (s : MemoryStore)
      (q : Result (Unit {0}) × MemoryStore)
      → Reach f s q.1
      → Reach f s (persisted h d (memory_store f) channels t out u key q).1
  persisted-Reach out u key s (ok _, s') r = r
  persisted-Reach out u key s (err m, s') r = r

  result-Reach :
      (out : ProcessOutput) (u : List String) (m : Result (ProductProcessResult × Bool))
      (s : MemoryStore)
      → Reach f s (take_result h d (memory_store f) channels t out u m s).1
  result-Reach out u (err m) s = here
  result-Reach out u (ok (res, valid)) s =
      persisted-Reach _ u res.product_key s
        (persist_result h d (memory_store f) channels t res valid s)
        (persist_result-Reach res valid s)

  parsed-Reach :
      (out : ProcessOutput) (u : List String) (m : Result (Product × List String)) (s : MemoryStore)
      → Reach f s (take_parsed h d (memory_store f) channels t out u m s).1
  parsed-Reach out u (err m) s = here
  parsed-Reach out u (ok (p, unk)) s =
      result-Reach out (merge_keys unk u)
        (process_product h p channels (some (λ key. (memory_store f).get_product_hash t key s))) s

  take_line-Reach :
      (line : String) (out : ProcessOutput) (u : List String) (s : MemoryStore)
      → Reach f s (take_line h d (memory_store f) channels t line out u s).1
  unfolding take_line
  take_line-Reach line out u s = elim (Bool-cases (trim_space line == "")) [
    | inl blank ↦ rw blank here
    | inr filled ↦ rw filled (
        parsed-Reach (count_received out) u (parse_product_object_allow_unknown d (trim_space line))
          s)
  ]

  bulk_loop-Reach :
      (lines : List String) (q : BulkState × MemoryStore)
      → Reach f q.1 (bulk_loop h d (memory_store f) channels t lines q).1
  unfolding bulk_loop
  bulk_loop-Reach [] q = here
  bulk_loop-Reach (line ∷ lines) (stopped members, s) = here
  bulk_loop-Reach (line ∷ lines) (running out u, s) =
      Reach-trans f (take_line-Reach line out u s)
        (bulk_loop-Reach lines (take_line h d (memory_store f) channels t line out u s))

module _ (h : Host) (encoder : Encoder) (gz : Gzip) (f : Shuffle) (clock : Clock)
    (channels : List String) where
  finish-Reach :
      (id : String) (t : ℕ) (failure : Option String) (q : BulkState × MemoryStore)
      → lookup id q.1.runs ≡ none
      → Reach f q.1 (finish h encoder gz (memory_store f) clock id t failure q).1
  finish-Reach id t failure (stopped members, s) fresh = here
  finish-Reach id t (some m) (running out u, s) fresh = here
  finish-Reach id t none (running out u, s) fresh =
      store_run-Reach h encoder f clock id t (record { unknown_keys = set_to_sorted_slice u }) out
        (none, s) refl fresh

  lines-Reach :
      (d : Decoder) (r : Request) (id : String) (m : Result RequestBody) (s : MemoryStore)
      → lookup id s.runs ≡ none
      → Reach f s (read_lines h encoder gz d (memory_store f) channels clock r id m s).1
  lines-Reach d r id (err m) s fresh = here
  lines-Reach d r id (ok reader) s fresh =
      let t = tenant_id r.context in
      let q = bulk_loop h d (memory_store f) channels t (scan reader).0 (running no_output [], s) in
      Reach-trans f (bulk_loop-Reach h d f channels t (scan reader).0 (running no_output [], s)) (
        finish-Reach id t (scan reader).1 q (
          ap (lookup id)
            (bulk_loop-KeepsRuns h d f channels t (scan reader).0 (running no_output [], s)).runs
          ∙ fresh))

  drawn-Reach :
      (d : Decoder) (r : Request) (m : Result String) (s : MemoryStore)
      → IsFresh m s
      → Reach f s (draw_run_id h encoder gz d (memory_store f) channels clock r m s).1
  drawn-Reach d r (err m) s fresh = here
  drawn-Reach d r (ok id) s fresh = lines-Reach d r id _ s fresh

  pub uploading-Reach :
      (intake : Intake) (r : Request) (s : MemoryStore)
      → IsFresh intake.new_run_id s
      → Reach f s (uploading h encoder gz intake f channels clock r s).1
  unfolding bulk_upsert_handler
  uploading-Reach intake r s fresh = elim (Bool-cases (r.method == "POST")) [
    | inl post ↦ rw post (drawn-Reach intake.decoder r intake.new_run_id s fresh)
    | inr other ↦ rw other here
  ]
