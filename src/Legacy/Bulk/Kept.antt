-- ===== src/Legacy/Bulk/Kept.antt =====
-- The hash of one result, as the older bulk handler and that of the API store it.
use conductor.Prelude.{
  Option-cases, ℕ, String, Bool, true, false, ◌≡◌, refl, Bool-cases, inl, inr, some, List, ok,
  arith, eq_iff, nat_eq_iff, if◌then◌else◌,
}
use conductor.Prelude.Equality.{string_instance, nat_instance}
use conductor.Prelude.Maps.{lookup, insert, lookup-insert}
use conductor.Domain.{Product, ProductDisposition, rejected, unchanged, enqueued}
use conductor.Host.{Host}
use conductor.Ingest.Decode.{Decoder}
use conductor.Ingest.Validate.{is_valid, validate_product_base, validate_channel_controls}
use conductor.Ingest.Processor.{ProductProcessResult, process_product, previous_hash}
use conductor.Ingest.Processor.Classify.{IsDecided, decide_product_decides}
use conductor.State.Memory.{
  MemoryStore, Shuffle, memory_store, get_product_hash, upsert_product_hash,
}
use conductor.State.Memory.Views.{get_product_hash-upsert}
use conductor.Api.Upsert.Again.{stored_hash}
use conductor.Api.Bulk.{persist_result}
use conductor.Legacy.Stores.{MemoryHashStore}
use conductor.Legacy.Upsert.Agrees.{SameHashes}
use conductor.Legacy.Bulk.{set_enqueued}

decided-stored :
    (h : Host) (p : Product) (t : ℕ) (s : MemoryStore) (res : ProductProcessResult)
    → IsDecided h p (some (stored_hash t s)) res
    → res.disposition ≡ unchanged
    → get_product_hash t res.product_key s ≡ some res.hash
unfolding previous_hash
decided-stored h p t s res d u = elim (Option-cases (get_product_hash t p.product_key s)) [
  | inl e ↦ ground (arith, d.looked_up, d.unchanged_iff, d.key)
  | inr (v, e) ↦ rw (d.key, e) (ground (arith, d.looked_up, d.unchanged_iff))
]

-- A product is unchanged only if its hash is the stored one.
pub unchanged-stored :
    (h : Host) (p : Product) (channels : List String) (t : ℕ) (s : MemoryStore)
    (res : ProductProcessResult) (valid : Bool)
    → process_product h p channels (some (stored_hash t s)) ≡ ok (res, valid)
    → valid ≡ true
    → res.disposition ≡ unchanged
    → get_product_hash t res.product_key s ≡ some res.hash
unfolding process_product
unchanged-stored h p channels t s res valid e v u =
    elim (Bool-cases (is_valid (validate_product_base p))) [
      | inr b ↦ ground arith
      | inl b ↦ elim (Bool-cases (is_valid (validate_channel_controls h p channels))) [
        | inr c ↦ ground arith
        | inl c ↦
            decided-stored h p t s res
              (decide_product_decides h p (some (stored_hash t s)) res valid (ground arith)).1 u
      ]
    ]

same_after :
    (t : ℕ) (key k hash : String) (s : MemoryStore)
    → get_product_hash t k s ≡ some hash
    → get_product_hash t key (upsert_product_hash t k hash s) ≡ get_product_hash t key s
same_after t key k hash s e =
    ground (arith, e, nat_eq_iff t t, eq_iff k key, get_product_hash-upsert t t k key hash s)

same_written :
    (t : ℕ) (key k hash : String) (old : MemoryHashStore) (s : MemoryStore)
    → SameHashes t old s
    → lookup key (insert k hash old.hashes)
      ≡ get_product_hash t key (upsert_product_hash t k hash s)
same_written t key k hash old s a = ground (
  arith,
  a.same key,
  nat_eq_iff t t,
  eq_iff k key,
  lookup-insert k key hash old.hashes,
  get_product_hash-upsert t t k key hash s,
)

module _ (h : Host) (d : Decoder) (channels : List String) (f : Shuffle) (t : ℕ) where
  -- The hash of a result is stored, or it is there already: in both stores.
  pub record IsKept (res : ProductProcessResult) (valid : Bool) (old : MemoryHashStore)
      (s : MemoryStore) : Type 0 where
    pub stored : (persist_result h d (memory_store f) channels t res valid s).0 ≡ ok tt
    pub hashes :
        SameHashes t
          (if valid then set_enqueued res res.disposition old else old)
          (persist_result h d (memory_store f) channels t res valid s).1

  pub persist_result-IsKept :
      (res : ProductProcessResult) (valid : Bool) (old : MemoryHashStore) (s : MemoryStore)
      → SameHashes t old s
      → (valid ≡ true
          → res.disposition ≡ unchanged
          → get_product_hash t res.product_key s ≡ some res.hash)
      → IsKept res valid old s
  unfolding memory_store
  persist_result-IsKept res false old s a k = record { stored = refl; hashes = a }
  persist_result-IsKept res true old s a k = go res.disposition (k refl)
    where
      go :
          (di : ProductDisposition)
          → (di ≡ unchanged → get_product_hash t res.product_key s ≡ some res.hash)
          → IsKept (record res { disposition = di }) true old s
      go rejected k' = record {
        stored = ground arith;
        hashes = record { same = λ key. ground (arith, a.same key) };
      }
      go unchanged k' = record {
        stored = ground arith;
        hashes = record {
          same = λ key.
              ground (arith, a.same key, same_after t key res.product_key res.hash s (k' refl));
        };
      }
      go enqueued k' = record {
        stored = ground arith;
        hashes = record {
          same = λ key.
              ground (arith, a.same key, same_written t key res.product_key res.hash old s a);
        };
      }
