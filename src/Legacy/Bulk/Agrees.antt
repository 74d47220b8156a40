-- ===== src/Legacy/Bulk/Agrees.antt =====
-- The older bulk handler against the one of internal/api/handlers.
use conductor.Prelude.{
  ℕ, String, Bool, true, ◌≡◌, refl, Bool-cases, inl, inr, ◌⊎◌, Option, none, some, List, [], ◌∷◌,
  Result, ok, err, arith, eq_iff, if◌then◌else◌,
}
use conductor.Prelude.Equality.{◌==◌, string_instance, nat_instance}
use conductor.Prelude.Text.{trim_space}
use conductor.Domain.{Product, unchanged}
use conductor.Host.{Host, lower}
use conductor.Ingest.Decode.{Decoder}
use conductor.Ingest.Parse.{merge_keys, set_to_sorted_slice, parse_product_object_allow_unknown}
use conductor.Ingest.Processor.{ProductProcessResult, ProcessOutput, process_product, tally_result}
use conductor.State.Memory.{MemoryStore, Shuffle, memory_store, get_product_hash}
use conductor.Api.Context.{tenant_id}
use conductor.Api.Http.{Request, RequestBody, Clock, header}
use conductor.Api.Upsert.{Encoder, Intake}
use conductor.Api.Upsert.Again.{stored_hash}
use conductor.Api.Bulk.{
  BulkState, running, stopped, Gzip, take_line, take_parsed, take_result, persisted, persist_result,
  bulk_loop, count_received, no_output, finish, read_lines, draw_run_id, wrap_maybe_gzip, scan,
  bulk_upsert_handler,
}
use conductor.Legacy.Stores.{MemoryHashStore}
use conductor.Legacy.Upsert.Agrees.{SameHashes, Agree, get_hash-stored_hash, store_run-Agree}
use conductor.Legacy.Bulk.{
  legacy_wrap_maybe_gzip, set_enqueued, process_parsed_line, process_line, legacy_take_line,
  legacy_bulk_loop, answer_run, answer_lines, answer_drawn, legacy_bulk_upsert_handler,
}
use conductor.Legacy.Bulk.Kept.{unchanged-stored, persist_result-IsKept}

module _ (h : Host) (d : Decoder) (channels : List String) (f : Shuffle) (t : ℕ) where
  -- The two loops are in one state, and their stores hold the same hashes.
  record InStep (q : BulkState × MemoryHashStore) (p : BulkState × MemoryStore) : Type 0 where
    state : q.0 ≡ p.0
    hashes : SameHashes t q.1 p.1

  persisted-InStep :
      (out : ProcessOutput) (u : List String) (key : String) (old : MemoryHashStore)
      (q : Result (Unit {0}) × MemoryStore)
      → q.0 ≡ ok tt
      → SameHashes t old q.1
      → InStep (running out u, old) (persisted h d (memory_store f) channels t out u key q)
  persisted-InStep out u key old (ok _, s) e a = record { state = refl; hashes = a }
  persisted-InStep out u key old (err m, s) e a = cc

  result-InStep :
      (out : ProcessOutput) (u : List String) (m : Result (ProductProcessResult × Bool))
      (old : MemoryHashStore) (s : MemoryStore)
      → SameHashes t old s
      → ((res : ProductProcessResult) (valid : Bool)
          → m ≡ ok (res, valid)
          → valid ≡ true
          → res.disposition ≡ unchanged
          → get_product_hash t res.product_key s ≡ some res.hash)
      → InStep
          (process_parsed_line h d channels out u m old)
          (take_result h d (memory_store f) channels t out u m s)
  result-InStep out u (err m) old s a k = record { state = refl; hashes = a }
  result-InStep out u (ok (res, valid)) old s a k =
      let kept = persist_result-IsKept h d channels f t res valid old s a (k res valid refl) in
      persisted-InStep (tally_result out res valid) u res.product_key
        (if valid then set_enqueued res res.disposition old else old)
        (persist_result h d (memory_store f) channels t res valid s) kept.stored kept.hashes

  parsed-InStep :
      (out : ProcessOutput) (u : List String) (m : Result (Product × List String))
      (old : MemoryHashStore) (s : MemoryStore)
      → SameHashes t old s
      → InStep
          (process_line h d channels out u m old)
          (take_parsed h d (memory_store f) channels t out u m s)
  unfolding memory_store
  parsed-InStep out u (err m) old s a = record { state = refl; hashes = a }
  parsed-InStep out u (ok (p, unk)) old s a = rw (get_hash-stored_hash t old s a) (
      result-InStep out (merge_keys unk u) (process_product h p channels (some (stored_hash t s)))
        old s a (unchanged-stored h p channels t s))

  take_line-InStep :
      (text : String) (out : ProcessOutput) (u : List String) (old : MemoryHashStore)
      (s : MemoryStore)
      → SameHashes t old s
      → InStep
          (legacy_take_line h d channels text out u old)
          (take_line h d (memory_store f) channels t text out u s)
  unfolding legacy_take_line take_line
  take_line-InStep text out u old s a = elim (Bool-cases (trim_space text == "")) [
    | inl blank ↦ rw blank (record { state = refl; hashes = a })
    | inr full ↦ rw full (
        parsed-InStep (count_received out) u
          (parse_product_object_allow_unknown d (trim_space text)) old s a)
  ]

  bulk_loop-InStep :
      (lines : List String) (q : BulkState × MemoryHashStore) (p : BulkState × MemoryStore)
      → InStep q p
      → InStep
          (legacy_bulk_loop h d channels lines q)
          (bulk_loop h d (memory_store f) channels t lines p)
  unfolding legacy_bulk_loop bulk_loop
  bulk_loop-InStep [] q p a = a
  bulk_loop-InStep (line ∷ lines) (running out u, old) (running out' u', s) a =
      let e : out ≡ out' = cc (a.state) in
      let e' : u ≡ u' = cc (a.state) in
      rw (e, e') (bulk_loop-InStep lines _ _ (take_line-InStep line out' u' old s a.hashes))
  bulk_loop-InStep (line ∷ lines) (stopped ms, old) (stopped ms', s) a = a
  bulk_loop-InStep (line ∷ lines) (running out u, old) (stopped ms, s) a = cc (a.state)
  bulk_loop-InStep (line ∷ lines) (stopped ms, old) (running out u, s) a = cc (a.state)

module _ (h : Host) (encoder : Encoder) (gz : Gzip) (channels : List String) (f : Shuffle)
    (clock : Clock) (t : ℕ) (d : Decoder) where
  finish-Agree :
      (id : String) (failure : Option String) (q : BulkState × MemoryHashStore)
      (p : BulkState × MemoryStore)
      → InStep h d channels f t q p
      → Agree t
          (answer_run h encoder gz channels id failure q)
          (finish h encoder gz (memory_store f) clock id t failure p)
  finish-Agree id failure (stopped ms, old) (stopped ms', s) a =
      let e : ms ≡ ms' = cc (a.state) in rw e (record { response = refl; hashes = a.hashes })
  finish-Agree id (some m) (running out u, old) (running out' u', s) a = record {
    response = refl;
    hashes = a.hashes;
  }
  finish-Agree id none (running out u, old) (running out' u', s) a =
      let e : out ≡ out' = cc (a.state) in
      let e' : u ≡ u' = cc (a.state) in
      rw (e, e')
        (store_run-Agree h encoder channels f clock t id
          (record { unknown_keys = set_to_sorted_slice u' }) out' old (none, s) refl a.hashes)
  finish-Agree id failure (running out u, old) (stopped ms, s) a = cc (a.state)
  finish-Agree id failure (stopped ms, old) (running out u, s) a = cc (a.state)

  lines-Agree :
      (id : String) (m : Result RequestBody) (old : MemoryHashStore) (s : MemoryStore) (r : Request)
      → tenant_id r.context ≡ t
      → SameHashes t old s
      → Agree t
          (answer_lines h encoder gz channels d id m old)
          (read_lines h encoder gz d (memory_store f) channels clock r id m s)
  lines-Agree id (err m) old s r e a = record { response = refl; hashes = a }
  lines-Agree id (ok reader) old s r e a = rw e (
      finish-Agree id (scan reader).1 _ _ (
        bulk_loop-InStep h d channels f t (scan reader).0 (running no_output [], old)
          (running no_output [], s) (record { state = refl; hashes = a })))

-- The encodings that both handlers take.
abbrev pub IsKnownEncoding : Host → Request → Type 0
IsKnownEncoding h r =
    let enc = lower h (trim_space (header "Content-Encoding" r)) in (enc ≡ "") ⊎ (enc ≡ "gzip")

wrap_maybe_gzip-eq :
    (h : Host) (gz : Gzip) (r : Request)
    → IsKnownEncoding h r
    → legacy_wrap_maybe_gzip h gz r.body (header "Content-Encoding" r)
      ≡ wrap_maybe_gzip h gz r.body (header "Content-Encoding" r)
wrap_maybe_gzip-eq h gz r k =
    let enc = lower h (trim_space (header "Content-Encoding" r)) in
    ground (arith, eq_iff enc "", eq_iff enc "gzip")

-- The older bulk handler gives the same response as the bulk handler of the API over the store in
-- memory, if its store holds the hashes of the request's tenant and the body comes plain or as gzip,
-- and afterwards it holds them again.
pub legacy_bulk_upsert_handler-Agree :
    (h : Host) (encoder : Encoder) (gz : Gzip) (channels : List String) (f : Shuffle)
    (intake : Intake) (clock : Clock) (r : Request) (old : MemoryHashStore) (s : MemoryStore)
    → IsKnownEncoding h r
    → SameHashes (tenant_id r.context) old s
    → Agree
        (tenant_id r.context)
        (legacy_bulk_upsert_handler h encoder gz channels intake clock r old)
        (bulk_upsert_handler h encoder gz intake
          (record { store = some (memory_store f); enabled_channels = channels })
          clock
          r
          s)
unfolding legacy_bulk_upsert_handler bulk_upsert_handler
legacy_bulk_upsert_handler-Agree h encoder gz channels f intake clock r old s known a =
    elim (Bool-cases (r.method == "POST")) [
      | inr other ↦ rw other (record { response = refl; hashes = a })
      | inl post ↦ rw post (drawn intake.new_run_id)
    ]
  where
    drawn :
        (m : Result String)
        → Agree
            (tenant_id r.context)
            (answer_drawn h encoder gz channels intake.decoder r m old)
            (draw_run_id h encoder gz intake.decoder (memory_store f) channels clock r m s)
    drawn (err m) = record { response = refl; hashes = a }
    drawn (ok id) = rw (wrap_maybe_gzip-eq h gz r known) (
        lines-Agree h encoder gz channels f clock (tenant_id r.context) intake.decoder id
          (wrap_maybe_gzip h gz r.body (header "Content-Encoding" r)) old s r refl a)
