-- ===== src/Api/Bulk/Cut.antt =====
-- A bulk upload whose body ends in an error.
use conductor.Prelude.{ap, ◌∙◌, sym, String, ◌≡◌, true, false, some, List, [], map, ok}
use mathlib.Core.Path.{subst}
use conductor.Prelude.Equality.{◌==◌, string_instance}
use conductor.Prelude.Sets.{AreDistinct}
use conductor.Domain.{Product}
use conductor.Host.{Host}
use conductor.Ingest.Processor.{ProcessOutput, process_products}
use conductor.Ingest.Processor.Again.{Digests}
use conductor.State.Memory.{MemoryStore, Shuffle, memory_store}
use conductor.Api.Context.{tenant_id}
use conductor.Api.Http.{Request, RequestBody, Clock, header}
use conductor.Api.Upsert.{Encoder, Intake, persist_hashes, is_push_triggered}
use conductor.Api.Upsert.Again.{stored_hash, process_products_resubmitted}
use conductor.Api.Bulk.{Gzip, running, wrap_maybe_gzip, scan, no_output, finish}
use conductor.Api.Bulk.Batch.{AreProducts, bulk_loop-process_products}
use conductor.Api.Bulk.Records.{KeepsRuns, uploading, uploading-eq, bulk_loop-KeepsRuns}

-- A request whose lines are the products of a list, and whose body then ends in an error.
pub record IsCut (h : Host) (gz : Gzip) (intake : Intake) (r : Request) (ps : List Product)
    : Type 0 where
  pub post : (r.method == "POST") ≡ true
  pub id : String
  pub drawn : intake.new_run_id ≡ ok id
  pub reader : RequestBody
  pub wrapped : wrap_maybe_gzip h gz r.body (header "Content-Encoding" r) ≡ ok reader
  pub message : String
  pub cut : (scan reader).1 ≡ some message
  pub unknown : List String
  pub lines : AreProducts intake.decoder [] (scan reader).0 ps unknown

module _ (h : Host) (encoder : Encoder) (gz : Gzip) (intake : Intake) (f : Shuffle)
    (channels : List String) (clock : Clock) (r : Request) (s : MemoryStore) where
  cut-finish :
      (ps : List Product) (out : ProcessOutput) (c : IsCut h gz intake r ps)
      → AreDistinct (map (λ p. p.product_key) ps)
      → process_products h ps channels (some (stored_hash (tenant_id r.context) s)) ≡ ok out
      → uploading h encoder gz intake f channels clock r s
        ≡ finish h encoder gz (memory_store f) clock c.id (tenant_id r.context) (some c.message) (
          running out c.unknown,
          (persist_hashes (memory_store f) (tenant_id r.context) out.products s).1,
        )
  cut-finish ps out c distinct e =
      let t = tenant_id r.context in
      let looped =
        bulk_loop-process_products h f intake.decoder t channels (scan c.reader).0 ps c.unknown out
          s c.lines distinct e in
      uploading-eq h encoder gz intake f channels clock r s c.id c.reader c.post c.drawn c.wrapped
      ∙ (λ i. finish h encoder gz (memory_store f) clock c.id t (c.cut i) (looped i))

  -- A bulk upload whose body ends in an error behind products with distinct keys is answered with
  -- status 400 and records no run, and yet the hashes of its products are stored: when the same
  -- products are sent again none of them is enqueued, and no push is triggered.
  pub uploading-cut :
      (ps : List Product) (out : ProcessOutput)
      → Digests h
      → IsCut h gz intake r ps
      → AreDistinct (map (λ p. p.product_key) ps)
      → process_products h ps channels (some (stored_hash (tenant_id r.context) s)) ≡ ok out
      → let done = uploading h encoder gz intake f channels clock r s in
        (done.0.status ≡ 400)
        × KeepsRuns s done.1
        × ((out' : ProcessOutput) × (process_products h ps channels
                (some (stored_hash (tenant_id r.context) done.1))
              ≡ ok out')
            × (out'.summary.enqueued ≡ 0)
            × (is_push_triggered out'.summary ≡ false))
  uploading-cut ps out digests c distinct e =
      let t = tenant_id r.context in
      let answered = cut-finish ps out c distinct e in
      let left = (persist_hashes (memory_store f) t out.products s).1 in
      let looped =
        bulk_loop-process_products h f intake.decoder t channels (scan c.reader).0 ps c.unknown out
          s c.lines distinct e in
      let kept =
        bulk_loop-KeepsRuns h intake.decoder f channels t (scan c.reader).0
          (running no_output [], s) in
      (
        ap (λ v. v.0.status) answered,
        subst (KeepsRuns s) (ap (λ v. v.1) looped ∙ sym (ap (λ v. v.1) answered)) kept,
        subst
            (λ s'.
              (out' : ProcessOutput) × (process_products h ps channels (some (stored_hash t s'))
                ≡ ok out')
              × (out'.summary.enqueued ≡ 0)
              × (is_push_triggered out'.summary ≡ false))
            (sym (ap (λ v. v.1) answered))
            (process_products_resubmitted h f t ps channels out s digests distinct e),
      )
