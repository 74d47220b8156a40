-- ===== src/Legacy/Stores.antt =====
-- internal/ingest/memory_store.go and idempotency_store.go
pub mod Expiry
use conductor.Prelude.{
  ℕ, zero, suc, ◌+◌, ℤ, pos, negsuc, String, Bool, false, Option, none, some, [], Result, ok, ltb,
  if◌then◌else◌,
}
use conductor.Prelude.Equality.{◌==◌, string_instance}
use conductor.Prelude.Maps.{Map, lookup, insert, remove}

pub record MemoryHashStore : Type 0 where
  pub hashes : Map String String

abbrev pub new_memory_hash_store : MemoryHashStore
new_memory_hash_store = record { hashes = [] }

abbrev pub get_hash : MemoryHashStore → String → Result (Option String)
get_hash s product_key = ok (lookup product_key s.hashes)

abbrev pub set_hash : String → String → MemoryHashStore → MemoryHashStore
set_hash product_key hash s = record { hashes = insert product_key hash s.hashes }

pub record CachedResponse : Type 0 where
  pub status_code : ℕ
  pub body : String
  pub created_at : ℕ

pub record IdempotencyStore : Type 0 where
  pub records : Map String CachedResponse
  pub ttl : ℤ

abbrev pub new_memory_idempotency_store : ℤ → IdempotencyStore
new_memory_idempotency_store ttl = record { records = []; ttl = ttl }

-- `s.ttl > 0 && time.Since(rec.CreatedAt) > s.ttl`
abbrev pub is_expired : ℤ → ℕ → CachedResponse → Bool
is_expired (pos ttl) now rec = if ltb 0 ttl then ltb (rec.created_at + ttl) now else false
is_expired (negsuc n) now rec = false

-- A record that has expired is deleted.
abbrev fresh_or_deleted :
    ℕ → String → Option CachedResponse → IdempotencyStore → Option CachedResponse × IdempotencyStore
fresh_or_deleted now key none s = (none, s)
fresh_or_deleted now key (some rec) s =
    if is_expired s.ttl now rec
    then (none, record s { records = remove key s.records })
    else (some rec, s)

unfoldable pub get_record : ℕ → String → IdempotencyStore → Option CachedResponse × IdempotencyStore
get_record now key s =
    if key == "" then (none, s) else fresh_or_deleted now key (lookup key s.records) s

unfoldable pub set_record : String → CachedResponse → IdempotencyStore → IdempotencyStore
set_record key rec s = if key == "" then s else record s { records = insert key rec s.records }
