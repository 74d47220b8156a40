-- ===== src/Api/Upsert/Again.antt =====
-- A feed that is sent again to the store in memory.
use mathlib.Core.Path.{subst}
use conductor.Prelude.{
  ℕ, String, ◌≡◌, refl, sym, ap, ◌∙◌, ◌||◌, false, Option, some, List, [], ◌∷◌, map, Result, ok,
  arith, eq_iff, nat_eq_iff, All, if◌then◌else◌,
}
use conductor.Prelude.Equality.{◌==◌, string_instance}
use conductor.Prelude.Sets.{AreDistinct}
use conductor.Domain.{Product, is_rejected}
use conductor.Host.{Host}
use conductor.Ingest.Processor.{ProductProcessResult, ProcessOutput, process_products}
use conductor.Ingest.Processor.Accounts.{process_products-IsTallied}
use conductor.Ingest.Processor.Again.{Digests, Remembers, process_products_again}
use conductor.State.Memory.{
  MemoryStore, Shuffle, memory_store, upsert_product_hash, get_product_hash,
}
use conductor.State.Memory.Views.{get_product_hash-upsert}
use conductor.Api.Upsert.{persist_hashes, is_push_triggered}

abbrev pub keys_of : List ProductProcessResult → List String
keys_of rs = map (λ r. r.product_key) rs

-- The handler's look-up in the store in memory.
abbrev pub stored_hash : ℕ → MemoryStore → String → Result (Option String)
stored_hash t s key = ok (get_product_hash t key s)

module _ (f : Shuffle) (t : ℕ) where
  -- The store after one turn of the loop.
  abbrev pub after : ProductProcessResult → MemoryStore → MemoryStore
  after r s =
      if r.hash == "" || is_rejected r.disposition
      then s
      else upsert_product_hash t r.product_key r.hash s

  pub persisted-after :
      (r : ProductProcessResult) (rs : List ProductProcessResult) (s : MemoryStore)
      → (persist_hashes (memory_store f) t (r ∷ rs) s).1
        ≡ (persist_hashes (memory_store f) t rs (after r s)).1
  unfolding persist_hashes memory_store
  persisted-after r rs s = ground arith

  pub get_product_hash_other :
      (key : String) (rs : List ProductProcessResult) (s : MemoryStore)
      → All (λ j. (j == key) ≡ false) (keys_of rs)
      → get_product_hash t key (persist_hashes (memory_store f) t rs s).1 ≡ get_product_hash t key s
  unfolding persist_hashes
  get_product_hash_other key [] s a = refl
  get_product_hash_other key (r ∷ rs) s a =
      ap (get_product_hash t key) (persisted-after r rs s)
      ∙ get_product_hash_other key rs (after r s) a.1
      ∙ ground (arith, a.0, get_product_hash-upsert t t r.product_key key r.hash s)

  persist_hashes-Remembers :
      (rs : List ProductProcessResult) (s : MemoryStore)
      → AreDistinct (keys_of rs)
      → Remembers (stored_hash t (persist_hashes (memory_store f) t rs s).1) rs
  persist_hashes-Remembers [] s d = tt
  persist_hashes-Remembers (r ∷ rs) s d =
      subst (λ s'. Remembers (stored_hash t s') (r ∷ rs)) (sym (persisted-after r rs s))
        (
          (λ taken full. ap ok (
              get_product_hash_other r.product_key rs (after r s) d.0
              ∙ ground (
                arith,
                eq_iff r.hash "",
                eq_iff r.product_key r.product_key,
                nat_eq_iff t t,
                get_product_hash-upsert t t r.product_key r.product_key r.hash s,
              ))),
          persist_hashes-Remembers rs (after r s) d.1,
        )

-- A feed whose product keys are distinct, sent again after its hashes have been stored: it is
-- processed, no product is enqueued, and its run triggers no push.
pub process_products_resubmitted :
    (h : Host) (f : Shuffle) (t : ℕ) (products : List Product) (channels : List String)
    (out : ProcessOutput) (s : MemoryStore)
    → Digests h
    → AreDistinct (map (λ p. p.product_key) products)
    → process_products h products channels (some (stored_hash t s)) ≡ ok out
    → (out' : ProcessOutput) × (process_products h products channels
          (some (stored_hash t (persist_hashes (memory_store f) t out.products s).1))
        ≡ ok out')
      × (out'.summary.enqueued ≡ 0)
      × (is_push_triggered out'.summary ≡ false)
process_products_resubmitted h f t products channels out s digests distinct first =
    let keys =
      (process_products-IsTallied h products channels (some (stored_hash t s)) out first).1 in
    let s' = (persist_hashes (memory_store f) t out.products s).1 in
    let kept =
      persist_hashes-Remembers f t out.products s (subst AreDistinct (sym keys) distinct) in
    let (out', again, quiet) =
      process_products_again h channels digests (stored_hash t s) (stored_hash t s') products out
        first kept in
    (out', again, quiet, ground arith)
