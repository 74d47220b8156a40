-- ===== src/Api/Server/Reaches.antt =====
-- What the handlers do to the store in memory is a sequence of its methods' steps.
use mathlib.Core.Path.{subst}
use conductor.Prelude.{
  ap, ◌∙◌, ℕ, String, ◌≡◌, sym, Bool-cases, inl, inr, Option, none, some, List, [], ◌∷◌, Result, ok,
  err, ◌||◌,
}
use conductor.Prelude.Equality.{◌==◌, string_instance}
use conductor.Prelude.Maps.{lookup}
use conductor.Host.{Host}
use conductor.Domain.{is_rejected}
use conductor.Ingest.Parse.{UnknownKeyWarning, ParseResult}
use conductor.Ingest.Processor.{ProductProcessResult, ProcessOutput}
use conductor.State.Memory.{MemoryStore, Shuffle, memory_store, insert_run}
use conductor.State.Memory.Steps.{Reach, here, next, upsert, new_run, new_products}
use conductor.Api.Context.{tenant_id}
use conductor.Api.Http.{Request, Clock}
use conductor.Api.Upsert.{
  Encoder, Intake, persist_hashes, upsert_handler, store_run, run_record, store_output,
  process_parsed, read_body, draw_run_id,
}
use conductor.Api.Upsert.Again.{after, persisted-after}
use conductor.Api.Upsert.Records.{upserting, persist_hashes-IsPersisted, store_run-memory}

pub Reach-trans : (f : Shuffle) {s t u : MemoryStore} → Reach f s t → Reach f t u → Reach f s u
Reach-trans f r here = r
Reach-trans f r (next q st) = next (Reach-trans f r q) st

-- No run has the id that a request draws.
abbrev pub IsFresh : Result String → MemoryStore → Type 0
IsFresh (err m) s = Unit
IsFresh (ok id) s = lookup id s.runs ≡ none

module _ (f : Shuffle) (t : ℕ) where
  after-Reach : (r : ProductProcessResult) (s : MemoryStore) → Reach f s (after f t r s)
  after-Reach r s = elim (Bool-cases (r.hash == "" || is_rejected r.disposition)) [
    | inl skipped ↦ rw skipped here
    | inr stored ↦ rw stored (next here (upsert t r.product_key r.hash s))
  ]

  persist_hashes-Reach :
      (rs : List ProductProcessResult) (s : MemoryStore)
      → Reach f s (persist_hashes (memory_store f) t rs s).1
  unfolding persist_hashes
  persist_hashes-Reach [] s = here
  persist_hashes-Reach (r ∷ rs) s =
      subst (Reach f s) (sym (persisted-after f t r rs s))
        (Reach-trans f (after-Reach r s) (persist_hashes-Reach rs (after f t r s)))

module _ (h : Host) (encoder : Encoder) (f : Shuffle) (clock : Clock) where
  pub store_run-Reach :
      (id : String) (t : ℕ) (w : UnknownKeyWarning) (out : ProcessOutput)
      (q : Option (String × String) × MemoryStore)
      → q.0 ≡ none
      → lookup id q.1.runs ≡ none
      → Reach f q.1 (store_run h encoder (memory_store f) clock id t w out q).1
  store_run-Reach id t w out q stored fresh =
      let run = run_record clock id t w out.summary in
      subst (Reach f q.1) (sym (store_run-memory h encoder f clock id t w out q stored).1) (
        next (next here (new_run run q.1 fresh))
          (new_products id out.products (insert_run run q.1)))

  output-Reach :
      (id : String) (t : ℕ) (w : UnknownKeyWarning) (m : Result ProcessOutput) (s : MemoryStore)
      → lookup id s.runs ≡ none
      → Reach f s (store_output h encoder (memory_store f) clock id t w m s).1
  output-Reach id t w (err m) s fresh = here
  output-Reach id t w (ok out) s fresh =
      let p = persist_hashes-IsPersisted f t out.products s in
      Reach-trans f (persist_hashes-Reach f t out.products s) (
        store_run-Reach id t w out (persist_hashes (memory_store f) t out.products s) p.stored
          (ap (lookup id) p.runs ∙ fresh))

  parsed-Reach :
      (channels : List String) (id : String) (t : ℕ) (m : Result ParseResult) (s : MemoryStore)
      → lookup id s.runs ≡ none
      → Reach f s (process_parsed h encoder (memory_store f) channels clock id t m s).1
  parsed-Reach channels id t (err m) s fresh = here
  parsed-Reach channels id t (ok parsed) s fresh = output-Reach id t parsed.warnings _ s fresh

  body-Reach :
      (intake : Intake) (channels : List String) (r : Request) (id : String)
      (failure : Option String) (s : MemoryStore)
      → lookup id s.runs ≡ none
      → Reach f s (read_body h encoder intake (memory_store f) channels clock r id failure s).1
  body-Reach intake channels r id (some m) s fresh = here
  body-Reach intake channels r id none s fresh =
      parsed-Reach channels id (tenant_id r.context) _ s fresh

  drawn-Reach :
      (intake : Intake) (channels : List String) (r : Request) (m : Result String) (s : MemoryStore)
      → IsFresh m s
      → Reach f s (draw_run_id h encoder intake (memory_store f) channels clock r m s).1
  drawn-Reach intake channels r (err m) s fresh = here
  drawn-Reach intake channels r (ok id) s fresh =
      body-Reach intake channels r id r.body.failure s fresh

  pub upserting-Reach :
      (intake : Intake) (channels : List String) (r : Request) (s : MemoryStore)
      → IsFresh intake.new_run_id s
      → Reach f s (upserting h encoder intake f channels clock r s).1
  unfolding upsert_handler
  upserting-Reach intake channels r s fresh = elim (Bool-cases (r.method == "POST")) [
    | inl post ↦ rw post (drawn-Reach intake channels r intake.new_run_id s fresh)
    | inr other ↦ rw other here
  ]
