-- ===== src/Ingest/Processor.antt =====
-- internal/ingest/processor.go
pub mod Classify
pub mod Accounts
pub mod Again
use conductor.Prelude.{
  ℕ, ◌+◌, String, Bool, true, false, Option, none, some, List, [], ◌∷◌, ◌++◌, Result, ok, err,
  ◌>>=◌, if◌then◌else◌, length,
}
use conductor.Domain.{Product, ProductDisposition, rejected, unchanged, enqueued}
use conductor.Host.{Host}
use conductor.Ingest.Validate.{
  ValidationIssue, is_valid, validate_product_base, validate_channel_controls,
}
use conductor.Ingest.Delta.{compute_disposition}
use conductor.Ingest.Hash.{hash_normalized}

-- `func(productKey string) (string, bool, error)`
abbrev pub PreviousHashLookup : Type 0
PreviousHashLookup = String → Result (Option String)

pub record ProductProcessResult : Type 0 where
  pub product_key : String
  pub hash : String
  pub disposition : ProductDisposition
  pub reason : String
  pub issues : List ValidationIssue

pub record ProcessSummary : Type 0 where
  pub received : ℕ
  pub valid : ℕ
  pub rejected : ℕ
  pub unchanged : ℕ
  pub enqueued : ℕ

pub record ProcessOutput : Type 0 where
  pub summary : ProcessSummary
  pub products : List ProductProcessResult

abbrev pub reject : String → String → List ValidationIssue → ProductProcessResult
reject key reason issues = record {
  product_key = key;
  hash = "";
  disposition = rejected;
  reason = reason;
  issues = issues;
}

-- `prev`: the stored hash, or "" where there is no lookup or no stored hash.
abbrev pub or_empty : Option String → String
or_empty none = ""
or_empty (some h) = h

unfoldable pub previous_hash : Option PreviousHashLookup → String → Result String
previous_hash none key = ok ""
previous_hash (some lookup) key = do found ← lookup key; ok (or_empty found)

-- The `switch` over the disposition of a valid product.
abbrev pub count_disposition : ProductDisposition → ProcessSummary → ProcessSummary
count_disposition unchanged s = record s { unchanged = s.unchanged + 1 }
count_disposition enqueued s = record s { enqueued = s.enqueued + 1 }
count_disposition rejected s = s

-- What one result adds to the output.
unfoldable pub tally_result : ProcessOutput → ProductProcessResult → Bool → ProcessOutput
tally_result out res valid = record {
  products = out.products ++ res ∷ [];
  summary =
      if valid
      then count_disposition res.disposition (record out.summary { valid = out.summary.valid + 1 })
      else record out.summary { rejected = out.summary.rejected + 1 };
}

module _ (h : Host) where
  -- The hash and the decision for a product that passed both validations.
  unfoldable pub decide_product :
      Product → Option PreviousHashLookup → Result (ProductProcessResult × Bool)
  unfolding previous_hash
  decide_product prod lookup = do
    hash ← hash_normalized h prod
    prev ← previous_hash lookup prod.product_key
    let decision = compute_disposition prev hash
    ok (
      record {
        product_key = prod.product_key;
        hash = hash;
        disposition = decision.disposition;
        reason = decision.reason;
        issues = [];
      },
      true,
    )

  unfoldable pub process_product :
      Product → List String → Option PreviousHashLookup → Result (ProductProcessResult × Bool)
  process_product prod enabled_channels lookup =
      let base = validate_product_base prod in
      let ch = validate_channel_controls h prod enabled_channels in
      if is_valid base
      then (if is_valid ch
          then decide_product prod lookup
          else ok (reject prod.product_key "channel_validation_failed" ch.issues, false))
      else ok (reject prod.product_key "base_validation_failed" base.issues, false)

  -- The loop over the batch.
  unfoldable pub process_loop :
      List Product → List String → Option PreviousHashLookup → ProcessOutput → Result ProcessOutput
  process_loop [] enabled_channels lookup out = ok out
  process_loop (prod ∷ products) enabled_channels lookup out = do
    (res, valid) ← process_product prod enabled_channels lookup
    process_loop products enabled_channels lookup (tally_result out res valid)

  unfoldable pub process_products :
      List Product → List String → Option PreviousHashLookup → Result ProcessOutput
  process_products products enabled_channels lookup =
      process_loop products enabled_channels lookup (record {
        summary = record {
          received = length products;
          valid = 0;
          rejected = 0;
          unchanged = 0;
          enqueued = 0;
        };
        products = [];
      })
