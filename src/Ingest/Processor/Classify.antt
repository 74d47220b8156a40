-- ===== src/Ingest/Processor/Classify.antt =====
-- What one product is told: accepted with its hash and a decision, or rejected with its issues.
use conductor.Prelude.{
  String, ◌≡◌, ◌≢◌, ◌↔◌, ◌⊎◌, inl, inr, Bool, true, false, Option, List, [], ok, bind-eq-ok, arith,
  eq_iff, All, Bool-cases,
}
use conductor.Domain.{Product, rejected, unchanged, enqueued}
use conductor.Host.{Host, Ranges}
use conductor.Ingest.Validate.{
  ValidationResult, is_valid, validate_product_base, validate_channel_controls,
}
use conductor.Ingest.Validate.Base.{HasBaseFields, validate_product_base_iff}
use conductor.Ingest.Validate.Channels.{HasControl, channel_name, validate_channel_controls_iff}
use conductor.Ingest.Delta.{compute_disposition}
use conductor.Ingest.Hash.{hash_normalized}
use conductor.Ingest.Processor.{
  PreviousHashLookup, ProductProcessResult, previous_hash, decide_product, process_product,
}

-- A product that the feed takes: its base fields are complete, and it controls every enabled
-- channel.
abbrev pub IsAcceptable : Host → Product → List String → Type 0
IsAcceptable h p enabled_channels =
    HasBaseFields p × All (λ c. HasControl p (channel_name h c)) enabled_channels

-- The result of an accepted product, against the hash that is stored for its key.
pub record IsDecided (h : Host) (p : Product) (lookup : Option PreviousHashLookup)
    (res : ProductProcessResult) : Type 0 where
  pub key : res.product_key ≡ p.product_key
  pub hashed : hash_normalized h p ≡ ok res.hash
  pub issues : res.issues ≡ []
  pub previous : String
  pub looked_up : previous_hash lookup p.product_key ≡ ok previous
  pub unchanged_iff : (res.disposition ≡ unchanged) ↔ ((previous ≡ res.hash) × (previous ≢ ""))
  pub enqueued_iff : (res.disposition ≡ enqueued) ↔ ((previous ≢ res.hash) ⊎ (previous ≡ ""))

-- The result of a refused product: no hash, and at least one issue.
pub record IsRejected (p : Product) (res : ProductProcessResult) : Type 0 where
  pub key : res.product_key ≡ p.product_key
  pub unhashed : res.hash ≡ ""
  pub disposition : res.disposition ≡ rejected
  pub issues : res.issues ≢ []

module _ (h : Host) (p : Product) (lookup : Option PreviousHashLookup) where
  pub decide_product_decides :
      (res : ProductProcessResult) (valid : Bool)
      → decide_product h p lookup ≡ ok (res, valid)
      → (valid ≡ true) × IsDecided h p lookup res
  unfolding decide_product compute_disposition
  decide_product_decides res valid e =
      let (hash, hashed, e₁) = bind-eq-ok (hash_normalized h p) _ e in
      let (prev, looked_up, e₂) = bind-eq-ok (previous_hash lookup p.product_key) _ e₁ in
      (
        ground arith,
        record {
          key = ground arith;
          hashed = ground arith;
          issues = ground arith;
          previous = prev;
          looked_up = looked_up;
          unchanged_iff = ground (arith, eq_iff prev "", eq_iff prev hash);
          enqueued_iff = ground (arith, eq_iff prev "", eq_iff prev hash);
        },
      )

issues-ne-nil : (r : ValidationResult) → is_valid r ≡ false → r.issues ≢ []
unfolding is_valid
issues-ne-nil r h = ground arith

-- A result is one of two: the product is acceptable, its result is valid, carries its hash, and is
-- unchanged exactly when a stored hash that is not empty equals it, or else enqueued; or the product
-- is not acceptable, and its result is rejected, with no hash and with issues.
pub process_product_classifies :
    (h : Host) (p : Product) (enabled_channels : List String) (lookup : Option PreviousHashLookup)
    (res : ProductProcessResult) (valid : Bool)
    → Ranges h
    → process_product h p enabled_channels lookup ≡ ok (res, valid)
    → ((valid ≡ true) × IsAcceptable h p enabled_channels × IsDecided h p lookup res)
      ⊎ ((valid ≡ false) × (¬ IsAcceptable h p enabled_channels) × IsRejected p res)
unfolding process_product
process_product_classifies h p cs lookup res valid ranges e =
    let (base_sound, base_complete) = validate_product_base_iff p in
    let (ch_sound, ch_complete) = validate_channel_controls_iff h p cs ranges in
    let base = validate_product_base p in
    let ch = validate_channel_controls h p cs in
    elim (Bool-cases (is_valid base)) [
      | inl b ↦ elim (Bool-cases (is_valid ch)) [
        | inl c ↦
            let (v, d) = decide_product_decides h p lookup res valid (ground arith) in
            inl (v, (base_sound b, ch_sound c), d)
        | inr c ↦ inr (
          ground arith,
          (λ a. cc (c, ch_complete a.1)),
          record {
            key = ground arith;
            unhashed = ground arith;
            disposition = ground arith;
            issues = ground (arith, issues-ne-nil ch c);
          },
        )
      ]
      | inr b ↦ inr (
        ground arith,
        (λ a. cc (b, base_complete a.0)),
        record {
          key = ground arith;
          unhashed = ground arith;
          disposition = ground arith;
          issues = ground (arith, issues-ne-nil base b);
        },
      )
    ]
