-- ===== src/Api/Bulk/Batch.antt =====
-- A bulk upload against the batch of its products.
use mathlib.Core.Path.{subst}
use conductor.Prelude.{
  ℕ, ◌+◌, suc, String, ◌≡◌, refl, sym, ap, ◌∙◌, Bool, true, false, some, List, [], ◌∷◌, ◌++◌, map,
  ok, bind-eq-ok, arith, eq_iff, length, All,
}
use conductor.Prelude.Equality.{◌==◌, string_instance}
use conductor.Prelude.Text.{trim_space}
use conductor.Prelude.Sets.{AreDistinct}
use conductor.Domain.{Product, ProductDisposition, rejected, unchanged, enqueued}
use conductor.Host.{Host}
use conductor.Ingest.Decode.{Decoder}
use conductor.Ingest.Parse.{parse_product_object_allow_unknown, merge_keys}
use conductor.Ingest.Processor.{
  PreviousHashLookup, ProductProcessResult, ProcessOutput, process_product, process_loop,
  process_products, decide_product, previous_hash, tally_result,
}
use conductor.Ingest.Processor.Accounts.{Agrees, process_product-Agrees, keys-tally_result}
use conductor.State.Memory.{MemoryStore, Shuffle, memory_store}
use conductor.Api.Upsert.{persist_hashes}
use conductor.Api.Upsert.Again.{
  keys_of, stored_hash, after, persisted-after, get_product_hash_other,
}
use conductor.Api.Bulk.{
  BulkState, running, take_line, persist_result, bulk_loop, count_received, no_output,
}

-- Lines that are the products of a list, and blank ones between them: the unknown keys before and
-- after them.
pub data AreProducts (d : Decoder)
    : List String → List String → List Product → List String → Type 0 where
  done : (u : List String) → AreProducts d u [] [] u
  blank :
      {u v : List String} {line : String} {lines : List String} {ps : List Product}
      → trim_space line ≡ ""
      → AreProducts d u lines ps v
      → AreProducts d u (line ∷ lines) ps v
  product :
      {u v unk : List String} {line : String} {lines : List String} {p : Product}
      {ps : List Product}
      → (trim_space line == "") ≡ false
      → parse_product_object_allow_unknown d (trim_space line) ≡ ok (p, unk)
      → AreProducts d (merge_keys unk u) lines ps v
      → AreProducts d u (line ∷ lines) (p ∷ ps) v

-- An output before the products that are still to come have been received.
abbrev expecting : ℕ → ProcessOutput → ProcessOutput
expecting n out = record out {
  summary = record out.summary { received = out.summary.received + n };
}

expecting-tally_result :
    (n : ℕ) (out : ProcessOutput) (res : ProductProcessResult) (valid : Bool)
    → tally_result (expecting (suc n) out) res valid
      ≡ expecting n (tally_result (count_received out) res valid)
unfolding tally_result
expecting-tally_result n out res valid = go valid res.disposition
  where
    go :
        (v : Bool) (di : ProductDisposition)
        → tally_result (expecting (suc n) out) (record res { disposition = di }) v
          ≡ expecting n (tally_result (count_received out) (record res { disposition = di }) v)
    go true rejected = ground arith
    go true unchanged = ground arith
    go true enqueued = ground arith
    go false di = ground arith

process_product_lookup :
    (h : Host) (channels : List String) (p : Product) (l l' : PreviousHashLookup)
    → l p.product_key ≡ l' p.product_key
    → process_product h p channels (some l) ≡ process_product h p channels (some l')
unfolding process_product decide_product previous_hash
process_product_lookup h channels p l l' e = rw e refl

All_middle :
    (P : String → Type 0) (xs : List String) (y : String) (ys : List String)
    → All P (xs ++ y ∷ ys)
    → P y
All_middle P [] y ys a = a.0
All_middle P (x ∷ xs) y ys a = All_middle P xs y ys a.1

distinct_head :
    (xs : List String) (y : String) (ys : List String)
    → AreDistinct (xs ++ y ∷ ys)
    → All (λ j. (j == y) ≡ false) xs
distinct_head [] y ys d = tt
distinct_head (x ∷ xs) y ys d =
    (ground (arith, All_middle _ xs y ys d.0, eq_iff x y, eq_iff y x), distinct_head xs y ys d.1)

module _ (f : Shuffle) (t : ℕ) where
  persist_hashes-snoc :
      (rs : List ProductProcessResult) (r : ProductProcessResult) (s : MemoryStore)
      → (persist_hashes (memory_store f) t (rs ++ r ∷ []) s).1
        ≡ after f t r (persist_hashes (memory_store f) t rs s).1
  unfolding persist_hashes
  persist_hashes-snoc [] r s = persisted-after f t r [] s
  persist_hashes-snoc (q ∷ rs) r s =
      persisted-after f t q (rs ++ r ∷ []) s
      ∙ persist_hashes-snoc rs r (after f t q s)
      ∙ ap (after f t r) (sym (persisted-after f t q rs s))

  persist_result-after :
      (h : Host) (d : Decoder) (channels : List String) (res : ProductProcessResult) (valid : Bool)
      (s : MemoryStore)
      → Agrees valid res.disposition
      → persist_result h d (memory_store f) channels t res valid s ≡ (ok tt, after f t res s)
  unfolding memory_store
  persist_result-after h d channels res valid s a = go valid res.disposition a
    where
      go :
          (v : Bool) (di : ProductDisposition)
          → Agrees v di
          → persist_result h d (memory_store f) channels t (record res { disposition = di }) v s
            ≡ (ok tt, after f t (record res { disposition = di }) s)
      go true rejected a = absurd a
      go true unchanged a = ground arith
      go true enqueued a = ground arith
      go false rejected a = ground arith
      go false unchanged a = absurd a
      go false enqueued a = absurd a

  take_line-blank :
      (h : Host) (d : Decoder) (channels : List String) (line : String) (out : ProcessOutput)
      (u : List String) (s : MemoryStore)
      → trim_space line ≡ ""
      → take_line h d (memory_store f) channels t line out u s ≡ (running out u, s)
  unfolding take_line
  take_line-blank h d channels line out u s b = rw b refl

  take_line-product :
      (h : Host) (d : Decoder) (channels : List String) (line : String) (out : ProcessOutput)
      (u unk : List String) (s : MemoryStore) (p : Product) (res : ProductProcessResult)
      (valid : Bool)
      → (trim_space line == "") ≡ false
      → parse_product_object_allow_unknown d (trim_space line) ≡ ok (p, unk)
      → process_product h p channels (some (stored_hash t s)) ≡ ok (res, valid)
      → take_line h d (memory_store f) channels t line out u s ≡ (
        running (tally_result (count_received out) res valid) (merge_keys unk u),
        after f t res s,
      )
  unfolding take_line memory_store
  take_line-product h d channels line out u unk s p res valid b parsed processed =
      let agrees =
        (process_product-Agrees h channels (some (stored_hash t s)) p res valid processed).0 in
      let kept = persist_result-after h d channels res valid s agrees in
      rw (b, parsed, processed, kept) refl

  bulk_loop-process_loop :
      (h : Host) (d : Decoder) (channels : List String) (u v : List String) (lines : List String)
      (ps : List Product) (out fin : ProcessOutput) (s : MemoryStore)
      → AreProducts d u lines ps v
      → AreDistinct (keys_of out.products ++ map (λ p. p.product_key) ps)
      → process_loop h ps channels (some (stored_hash t s)) (expecting (length ps) out) ≡ ok fin
      → bulk_loop h d
          (memory_store f)
          channels
          t
          lines
          (running out u, (persist_hashes (memory_store f) t out.products s).1)
        ≡ (running fin v, (persist_hashes (memory_store f) t fin.products s).1)
  unfolding bulk_loop process_loop tally_result
  bulk_loop-process_loop h d channels u v [] [] out fin s (done w) distinct e =
      let same : out ≡ fin = ground arith in
      subst
        (λ o.
          ◌≡◌ {A = BulkState × MemoryStore}
            (running out u, (persist_hashes (memory_store f) t out.products s).1)
            (running o u, (persist_hashes (memory_store f) t o.products s).1))
        same refl
  bulk_loop-process_loop h d channels u v [] (p ∷ ps) out fin s all distinct e = elim all [ ]
  bulk_loop-process_loop h d channels u v (line ∷ lines) ps out fin s (blank b rest) distinct e =
      ap (bulk_loop h d (memory_store f) channels t lines) (
        take_line-blank h d channels line out u (persist_hashes (memory_store f) t out.products s).1
          b)
      ∙ bulk_loop-process_loop h d channels u v lines ps out fin s rest distinct e
  bulk_loop-process_loop h d channels u v (line ∷ lines) (p ∷ ps) out fin s
        (product {unk} b parsed rest) distinct e =
      let now = (persist_hashes (memory_store f) t out.products s).1 in
      let ((res, valid), processed, looped) =
        bind-eq-ok (process_product h p channels (some (stored_hash t s))) _ e in
      let key =
        (process_product-Agrees h channels (some (stored_hash t s)) p res valid processed).1 in
      let seen = get_product_hash_other f t p.product_key out.products s (
        distinct_head (keys_of out.products) p.product_key (map (λ p. p.product_key) ps)
          distinct) in
      let again =
        process_product_lookup h channels p (stored_hash t now) (stored_hash t s) (ap ok seen)
        ∙ processed in
      let out' = tally_result (count_received out) res valid in
      ap (bulk_loop h d (memory_store f) channels t lines) (
        take_line-product h d channels line out u unk now p res valid b parsed again
        ∙ ap (λ s'. (running out' (merge_keys unk u), s'))
            (sym (persist_hashes-snoc out.products res s)))
      ∙ bulk_loop-process_loop h d channels (merge_keys unk u) v lines ps out' fin s rest
          (subst AreDistinct (sym (keys-tally_result (count_received out) res valid p ps key))
            distinct)
          (ap (process_loop h ps channels (some (stored_hash t s)))
              (sym (expecting-tally_result (length ps) out res valid))
            ∙ looped)

-- A bulk upload whose lines are products with distinct keys, with blank lines between them, has the
-- output of the batch of these products, and it leaves in the store the hashes that are stored for
-- that batch.
pub bulk_loop-process_products :
    (h : Host) (f : Shuffle) (d : Decoder) (t : ℕ) (channels : List String) (lines : List String)
    (ps : List Product) (unknown : List String) (out : ProcessOutput) (s : MemoryStore)
    → AreProducts d [] lines ps unknown
    → AreDistinct (map (λ p. p.product_key) ps)
    → process_products h ps channels (some (stored_hash t s)) ≡ ok out
    → bulk_loop h d (memory_store f) channels t lines (running no_output [], s)
      ≡ (running out unknown, (persist_hashes (memory_store f) t out.products s).1)
unfolding process_products persist_hashes
bulk_loop-process_products h f d t channels lines ps unknown out s all distinct e =
    let from_zero : length ps ≡ 0 + length ps = omega arith in
    bulk_loop-process_loop f t h d channels [] unknown lines ps no_output out s all distinct (
      subst
        (λ n.
          process_loop h ps channels (some (stored_hash t s))
            (record no_output { summary = record no_output.summary { received = n } })
          ≡ ok out)
        from_zero e)
