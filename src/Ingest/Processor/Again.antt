-- ===== src/Ingest/Processor/Again.antt =====
-- A batch that is sent again.
use conductor.Prelude.{
  String, ◌≡◌, refl, sym, ap, ◌∙◌, ◌≢◌, inl, inr, Bool, true, false, some, List, [], ◌∷◌, ◌++◌, ok,
  bind-eq-ok, arith, eq_iff, Bool-cases,
}
use mathlib.Core.List.{append_assoc, append-nil}
use mathlib.Core.Path.{subst}
use conductor.Domain.{is_enqueued, is_rejected, Product, unchanged}
use conductor.Host.{Host}
use conductor.Ingest.Validate.{is_valid, validate_product_base, validate_channel_controls}
use conductor.Ingest.Delta.{compute_disposition}
use conductor.Ingest.Hash.{hash_normalized, normalize_for_hash}
use conductor.Ingest.Processor.{
  PreviousHashLookup, ProductProcessResult, ProcessOutput, tally_result, decide_product,
  previous_hash, process_product, process_loop, process_products,
}

-- A digest is never empty: SHA-256 in hexadecimal has 64 digits.
pub record Digests (h : Host) : Type 0 where
  pub filled : (b : String) → h.sha256_hex b ≢ ""

-- The look-up finds the hash of a result that is not rejected.
abbrev pub IsKept : PreviousHashLookup → ProductProcessResult → Type 0
IsKept l r = is_rejected r.disposition ≡ false → r.hash ≢ "" → l r.product_key ≡ ok (some r.hash)

abbrev pub Remembers : PreviousHashLookup → List ProductProcessResult → Type 0
Remembers l [] = Unit
Remembers l (r ∷ rs) = IsKept l r × Remembers l rs

module _ (h : Host) (cs : List String) where
  -- The results of a batch, one by one.
  abbrev pub Processed : PreviousHashLookup → List Product → List ProductProcessResult → Type 0
  Processed l [] [] = Unit
  Processed l [] (r ∷ rs) = ⊥
  Processed l (p ∷ ps) [] = ⊥
  Processed l (p ∷ ps) (r ∷ rs) =
      ((v : Bool) × (process_product h p cs (some l) ≡ ok (r, v))) × Processed l ps rs

  hash_filled :
      Digests h → (p : Product) {hash : String} → hash_normalized h p ≡ ok hash → hash ≢ ""
  unfolding hash_normalized
  hash_filled d p e =
      let (b, marshalled, hashed) = bind-eq-ok (h.marshal (normalize_for_hash p)) _ e in
      λ blank. d.filled b (cc)

  previous_hash_stored :
      (l : PreviousHashLookup) (key hash : String)
      → l key ≡ ok (some hash)
      → previous_hash (some l) key ≡ ok hash
  unfolding previous_hash
  previous_hash_stored l key hash e = rw e refl

  decide_again :
      (d : Digests h) (l : PreviousHashLookup) (l' : PreviousHashLookup) (p : Product)
      (r : ProductProcessResult) (v : Bool)
      → decide_product h p (some l) ≡ ok (r, v)
      → IsKept l' r
      → decide_product h p (some l')
        ≡ ok (record r { disposition = unchanged; reason = "no_change_detected" }, v)
  unfolding decide_product compute_disposition
  decide_again d l l' p r v e m =
      let (hash, hashed, e₁) = bind-eq-ok (hash_normalized h p) _ e in
      let (prev, looked_up, e₂) = bind-eq-ok (previous_hash (some l) p.product_key) _ e₁ in
      let full = hash_filled d p hashed in
      let same : r.hash ≡ hash = ground arith in
      let key : r.product_key ≡ p.product_key = ground arith in
      let taken : is_rejected r.disposition ≡ false = ground arith in
      let valid : v ≡ true = ground arith in
      let issues : r.issues ≡ [] = ground arith in
      let stored : previous_hash (some l') p.product_key ≡ ok hash =
        previous_hash_stored l' p.product_key hash (
          sym (ap (λ k. l' k) key)
          ∙ m taken (λ b. full (sym same ∙ b))
          ∙ ap (λ x. ok (some x)) same) in
      rw (hashed, stored) (ground (arith, eq_iff hash "", eq_iff hash hash))

  tally_result-products :
      (out : ProcessOutput) (r : ProductProcessResult) (v : Bool) (rs : List ProductProcessResult)
      → (tally_result out r v).products ++ rs ≡ out.products ++ r ∷ rs
  unfolding tally_result
  tally_result-products out r v rs = append_assoc out.products (r ∷ []) rs

  tally_result-enqueued :
      (out : ProcessOutput) (r : ProductProcessResult) (v : Bool)
      → is_enqueued r.disposition ≡ false
      → (tally_result out r v).summary.enqueued ≡ out.summary.enqueued
  unfolding tally_result
  tally_result-enqueued out r v e = ground arith

  -- A product whose hash is stored is not enqueued.
  process_again :
      (d : Digests h) (l l' : PreviousHashLookup) (p : Product) (r : ProductProcessResult)
      (v : Bool)
      → process_product h p cs (some l) ≡ ok (r, v)
      → IsKept l' r
      → (r' : ProductProcessResult) × (is_enqueued r'.disposition ≡ false)
        × (process_product h p cs (some l') ≡ ok (r', v))
  unfolding process_product
  process_again d l l' p r v e m = elim (Bool-cases (is_valid (validate_product_base p))) [
    | inr base ↦ (r, ground arith, ground arith)
    | inl base ↦ elim (Bool-cases (is_valid (validate_channel_controls h p cs))) [
      | inr ch ↦ (r, ground arith, ground arith)
      | inl ch ↦
          let first : decide_product h p (some l) ≡ ok (r, v) = ground arith in
          (
            record r { disposition = unchanged; reason = "no_change_detected" },
            refl,
            rw (base, ch) (decide_again d l l' p r v first m),
          )
    ]
  ]

  process_loop_again :
      (d : Digests h) (l l' : PreviousHashLookup) (ps : List Product)
      (rs : List ProductProcessResult) (out : ProcessOutput)
      → Processed l ps rs
      → Remembers l' rs
      → (out' : ProcessOutput) × (process_loop h ps cs (some l') out ≡ ok out')
        × (out'.summary.enqueued ≡ out.summary.enqueued)
  unfolding process_loop
  process_loop_again d l l' [] rs out all m = (out, refl, refl)
  process_loop_again d l l' (p ∷ ps) [] out all m = absurd all
  process_loop_again d l l' (p ∷ ps) (r ∷ rs) out all m =
      let ((v, e), rest) = all in
      let (r', quiet, again) = process_again d l l' p r v e m.0 in
      let (out', looped, enqueued_same) =
        process_loop_again d l l' ps rs (tally_result out r' v) rest m.1 in
      (out', rw again looped, enqueued_same ∙ tally_result-enqueued out r' v quiet)

  process_loop-Processed :
      (l : PreviousHashLookup) (ps : List Product) (out out' : ProcessOutput)
      → process_loop h ps cs (some l) out ≡ ok out'
      → (rs : List ProductProcessResult) × (out'.products ≡ out.products ++ rs) × Processed l ps rs
  unfolding process_loop
  process_loop-Processed l [] out out' e = ([], ground (arith, append-nil out.products), tt)
  process_loop-Processed l (p ∷ ps) out out' e =
      let ((r, v), processed, rest) = bind-eq-ok (process_product h p cs (some l)) _ e in
      let (rs, products, all) = process_loop-Processed l ps (tally_result out r v) out' rest in
      (r ∷ rs, products ∙ tally_result-products out r v rs, ((v, processed), all))

  -- A batch whose hashes are all found has nothing to enqueue.
  pub process_products_again :
      (d : Digests h) (l l' : PreviousHashLookup) (ps : List Product) (out : ProcessOutput)
      → process_products h ps cs (some l) ≡ ok out
      → Remembers l' out.products
      → (out' : ProcessOutput) × (process_products h ps cs (some l') ≡ ok out')
        × (out'.summary.enqueued ≡ 0)
  unfolding process_products
  process_products_again d l l' ps out e m =
      let (rs, products, all) = process_loop-Processed l ps _ out e in
      process_loop_again d l l' ps rs _ all (subst (Remembers l') products m)
