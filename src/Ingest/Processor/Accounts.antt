-- ===== src/Ingest/Processor/Accounts.antt =====
-- What the summary of a batch says of its results.
use mathlib.Core.List.{append_assoc, append-nil, map-append}
use mathlib.Core.Path.{subst}
use conductor.Prelude.{
  ℕ, ◌+◌, String, ◌≡◌, refl, sym, ap, ◌∙◌, inl, inr, Bool, true, false, Option, List, [], ◌∷◌, ◌++◌,
  map, ok, bind-eq-ok, arith, length, Bool-cases, tally, length-append, length-map, tally-append,
}
use conductor.Domain.{is_rejected, is_unchanged, is_enqueued, Product, ProductDisposition, rejected}
use conductor.Host.{Host}
use conductor.Ingest.Validate.{is_valid, validate_product_base, validate_channel_controls}
use conductor.Ingest.Delta.{compute_disposition}
use conductor.Ingest.Hash.{hash_normalized}
use conductor.Ingest.Processor.{
  PreviousHashLookup, ProductProcessResult, ProcessOutput, tally_result, decide_product,
  previous_hash, process_product, process_loop, process_products,
}

-- How many results have a disposition that passes the test.
abbrev pub tally_of : (ProductDisposition → Bool) → List ProductProcessResult → ℕ
tally_of t rs = tally (λ r. t r.disposition) rs

-- Each counter of the summary is the number of results of its kind.
pub record IsTallied (out : ProcessOutput) : Type 0 where
  pub rejected : out.summary.rejected ≡ tally_of is_rejected out.products
  pub unchanged : out.summary.unchanged ≡ tally_of is_unchanged out.products
  pub enqueued : out.summary.enqueued ≡ tally_of is_enqueued out.products
  pub valid : out.summary.valid ≡ out.summary.unchanged + out.summary.enqueued
  pub all : length out.products ≡ out.summary.valid + out.summary.rejected

-- The flag and the disposition of a result agree.
abbrev pub Agrees : Bool → ProductDisposition → Type 0
Agrees true rejected = ⊥
Agrees true _ = Unit
Agrees false rejected = Unit
Agrees false _ = ⊥

pub tally_result-IsTallied :
    (out : ProcessOutput) (res : ProductProcessResult) (valid : Bool)
    → Agrees valid res.disposition
    → IsTallied out
    → IsTallied (tally_result out res valid)
unfolding tally_result
tally_result-IsTallied out res valid a t =
    let one = res ∷ [] in
    ground (
      arith,
      tally-append (λ r. is_rejected r.disposition) out.products one,
      tally-append (λ r. is_unchanged r.disposition) out.products one,
      tally-append (λ r. is_enqueued r.disposition) out.products one,
      length-append out.products one,
    )

pub received-tally_result :
    (out : ProcessOutput) (res : ProductProcessResult) (valid : Bool)
    → (tally_result out res valid).summary.received ≡ out.summary.received
unfolding tally_result
received-tally_result out res valid = ground arith

pub keys-tally_result :
    (out : ProcessOutput) (res : ProductProcessResult) (valid : Bool) (p : Product)
    (ps : List Product)
    → res.product_key ≡ p.product_key
    → map (λ r. r.product_key) (tally_result out res valid).products ++ map (λ p. p.product_key) ps
      ≡ map (λ r. r.product_key) out.products ++ map (λ p. p.product_key) (p ∷ ps)
unfolding tally_result
keys-tally_result out res valid p ps key = simp (map-append, append_assoc, key)

module _ (h : Host) (enabled_channels : List String) (lookup : Option PreviousHashLookup) where
  decide_product-Agrees :
      (p : Product) (res : ProductProcessResult) (valid : Bool)
      → decide_product h p lookup ≡ ok (res, valid)
      → Agrees valid res.disposition × (res.product_key ≡ p.product_key)
  unfolding decide_product compute_disposition
  decide_product-Agrees p res valid e =
      let (hash, hashed, e₁) = bind-eq-ok (hash_normalized h p) _ e in
      let (prev, looked_up, e₂) = bind-eq-ok (previous_hash lookup p.product_key) _ e₁ in
      ground arith

  pub process_product-Agrees :
      (p : Product) (res : ProductProcessResult) (valid : Bool)
      → process_product h p enabled_channels lookup ≡ ok (res, valid)
      → Agrees valid res.disposition × (res.product_key ≡ p.product_key)
  unfolding process_product
  process_product-Agrees p res valid e = elim (Bool-cases (is_valid (validate_product_base p))) [
    | inl b ↦ elim (Bool-cases (is_valid (validate_channel_controls h p enabled_channels))) [
      | inl c ↦ decide_product-Agrees p res valid (ground arith)
      | inr c ↦ ground arith
    ]
    | inr b ↦ ground arith
  ]

  process_loop-IsTallied :
      (ps : List Product) (out out' : ProcessOutput)
      → IsTallied out
      → process_loop h ps enabled_channels lookup out ≡ ok out'
      → IsTallied out'
        × (map (λ r. r.product_key) out'.products
            ≡ map (λ r. r.product_key) out.products ++ map (λ p. p.product_key) ps)
        × (out'.summary.received ≡ out.summary.received)
  unfolding process_loop
  process_loop-IsTallied [] out out' t e =
      let same : out ≡ out' = cc in
      subst
        (λ o.
          IsTallied o
          × (map (λ r. r.product_key) o.products ≡ map (λ r. r.product_key) out.products ++ [])
          × (o.summary.received ≡ out.summary.received))
        same (t, sym (append-nil _), refl)
  process_loop-IsTallied (p ∷ ps) out out' t e =
      let ((res, valid), processed, e₁) =
        bind-eq-ok (process_product h p enabled_channels lookup) _ e in
      let (agrees, key) = process_product-Agrees p res valid processed in
      let (t', keys, received) =
        process_loop-IsTallied ps (tally_result out res valid) out'
          (tally_result-IsTallied out res valid agrees t) e₁ in
      (
        t',
        keys ∙ keys-tally_result out res valid p ps key,
        received ∙ received-tally_result out res valid,
      )

-- Each counter of the summary of a batch is the number of results of its kind: valid is unchanged
-- plus enqueued, received is valid plus rejected, and there is one result for each product, in the
-- order of the batch and with its key.
pub process_products-IsTallied :
    (h : Host) (products : List Product) (enabled_channels : List String)
    (lookup : Option PreviousHashLookup) (out : ProcessOutput)
    → process_products h products enabled_channels lookup ≡ ok out
    → IsTallied out
      × (map (λ r. r.product_key) out.products ≡ map (λ p. p.product_key) products)
      × (out.summary.received ≡ out.summary.valid + out.summary.rejected)
      × (out.summary.received ≡ length products)
unfolding process_products
process_products-IsTallied h products cs lookup out e =
    let (t, keys, received) = process_loop-IsTallied h cs lookup products _ out (omega arith) e in
    let sizes = ap (λ (l : List String). length l) keys in
    (
      t,
      keys,
      omega (
        arith,
        received,
        sizes,
        length-map out.products (λ r. r.product_key),
        length-map products (λ p. p.product_key),
      ),
      received,
    )
