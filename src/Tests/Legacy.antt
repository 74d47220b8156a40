-- ===== src/Tests/Legacy.antt =====
-- Tests of the older handlers.
use conductor.Prelude.{◌≡◌, refl, ◌≢◌, inl, pos, none, some, [], ◌∷◌, arith, eq_iff}
use conductor.Prelude.Equality.{string_instance}
use conductor.Prelude.Maps.{lookup, insert}
use conductor.Prelude.Text.{trim_space, trim_left, trim_right, is_space, to_lower}
use conductor.State.Memory.{
  MemoryStore, memory_store, new_memory_store, get_product_hash, upsert_product_hash,
}
use conductor.Api.Http.{json_text}
use conductor.Api.Context.{tenant_id}
use conductor.Api.Upsert.Records.{upserting}
use conductor.Api.Bulk.{bulk_upsert_handler}
use conductor.Legacy.Stores.{
  MemoryHashStore, CachedResponse, IdempotencyStore, new_memory_idempotency_store, get_record,
  set_record,
}
use conductor.Legacy.Upsert.{legacy_upsert_handler}
use conductor.Legacy.Upsert.Agrees.{SameHashes, Agree, legacy_upsert_handler-Agree}
use conductor.Legacy.Bulk.{legacy_bulk_upsert_handler}
use conductor.Legacy.Bulk.Agrees.{IsKnownEncoding, legacy_bulk_upsert_handler-Agree}
use conductor.Legacy.Idempotency.{legacy_key, legacy_idempotency_middleware}
use conductor.Legacy.Idempotency.Retry.{legacy_idempotency_middleware-retry}
use conductor.Tests.Data.{host, shuffle, clock, post}
use conductor.Tests.Api.{encoder, intake, echo, teapot}
use conductor.Tests.Bulk.{gzip, bulk_intake, cut_request}

-- Two stores that hold the hash of one product.
abbrev old_hashes : MemoryHashStore
old_hashes = record { hashes = ("mug", "document") ∷ [] }

abbrev new_hashes : MemoryStore
new_hashes = upsert_product_hash 1 "mug" "document" new_memory_store

stores-SameHashes : SameHashes (tenant_id post.context) old_hashes new_hashes
unfolding lookup get_product_hash upsert_product_hash tenant_id insert
stores-SameHashes = record { same = λ key. refl }

legacy_upsert_handler-Agree_example :
    Agree
      (tenant_id post.context)
      (legacy_upsert_handler host encoder ("google" ∷ []) intake clock post old_hashes)
      (upserting host encoder intake shuffle ("google" ∷ []) clock post new_hashes)
legacy_upsert_handler-Agree_example =
    legacy_upsert_handler-Agree host encoder ("google" ∷ []) shuffle intake clock post old_hashes
      new_hashes stores-SameHashes

plain-IsKnownEncoding : IsKnownEncoding host cut_request
unfolding to_lower trim_space trim_left trim_right is_space lookup
plain-IsKnownEncoding = inl refl

legacy_bulk_upsert_handler-Agree_example :
    Agree
      (tenant_id cut_request.context)
      (legacy_bulk_upsert_handler host encoder gzip
        ("google" ∷ [])
        bulk_intake
        clock
        cut_request
        old_hashes)
      (bulk_upsert_handler host encoder gzip bulk_intake
        (record { store = some (memory_store shuffle); enabled_channels = "google" ∷ [] })
        clock
        cut_request
        new_hashes)
legacy_bulk_upsert_handler-Agree_example =
    legacy_bulk_upsert_handler-Agree host encoder gzip ("google" ∷ []) shuffle bulk_intake clock
      cut_request old_hashes new_hashes plain-IsKnownEncoding stores-SameHashes

abbrev cache : IdempotencyStore
cache = new_memory_idempotency_store (pos 60)

abbrev cached : CachedResponse
cached = record { status_code = 201; body = "{}"; created_at = 100 }

-- At the end of its time a response is still given back, and a moment later it is not.
served_until : (get_record 160 "k1" (set_record "k1" cached cache)).0 ≡ some cached
unfolding get_record set_record lookup insert
served_until = refl

gone_after : (get_record 161 "k1" (set_record "k1" cached cache)).0 ≡ none
unfolding get_record set_record lookup insert
gone_after = refl

keyed : legacy_key post ≢ ""
unfolding lookup
keyed e = ground (arith, eq_iff "k1" "")

uncached : lookup (legacy_key post) cache.records ≡ none
unfolding lookup
uncached = refl

legacy_idempotency_middleware-retry_example :
    (legacy_idempotency_middleware
        (some teapot)
        clock
        post
        (legacy_idempotency_middleware (some echo) clock post (some cache, new_memory_store)).1
      ≡ (
        json_text
            (legacy_idempotency_middleware
              (some echo)
              clock
              post
              (some cache, new_memory_store)).0.status
            (legacy_idempotency_middleware
              (some echo)
              clock
              post
              (some cache, new_memory_store)).0.body,
        (legacy_idempotency_middleware (some echo) clock post (some cache, new_memory_store)).1,
      ))
    × ((legacy_idempotency_middleware (some echo) clock post (some cache, new_memory_store)).0.body
        ≡ (echo clock post new_memory_store).0.body)
    × ((legacy_idempotency_middleware (some echo) clock post (some cache, new_memory_store)).1.1
        ≡ (echo clock post new_memory_store).1)
legacy_idempotency_middleware-retry_example =
    legacy_idempotency_middleware-retry echo teapot clock clock post post cache new_memory_store
      keyed refl uncached (omega arith)
