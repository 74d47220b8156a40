-- ===== src/Tests/Ingest.antt =====
-- Tests of the ingestion.
use conductor.Prelude.{
  ℕ, some, ◌+◌, ◌≡◌, refl, ◌↔◌, ◌⊎◌, true, false, none, List, [], ◌∷◌, map, ok, length, All,
}
use conductor.Domain.{Product}
use conductor.Prelude.Sets.{AreDistinct}
use conductor.Prelude.Maps.{insert, lookup}
use conductor.Prelude.Text.{trim_space, trim_left, trim_right, is_space, to_lower, lower_char}
use conductor.Ingest.Delta.{compute_disposition}
use conductor.Ingest.Validate.{
  check_currency, check_decimal, require_non_empty, check_channels, collect_enabled, check_google,
  validate_control_state, check_channel, decimal_loop, add_issue, is_valid, validate_product_base,
  validate_channel_controls, looks_like_decimal,
}
use conductor.Ingest.Validate.Base.{HasBaseFields, validate_product_base_iff}
use conductor.Ingest.Validate.Channels.{HasControl, channel_name, validate_channel_controls_iff}
use conductor.Ingest.Validate.Decimal.{IsPlain, IsDotted, HasDigit, looks_like_decimal_iff}
use conductor.Ingest.Hash.{normalize_for_hash, hash_normalized}
use conductor.Ingest.Hash.Content.{SameContent, normalize_for_hash_iff}
use conductor.Ingest.Processor.{
  ProcessOutput, decide_product, previous_hash, process_loop, tally_result, process_product,
  process_products, reject,
}
use conductor.Ingest.Processor.Classify.{
  IsAcceptable, IsDecided, IsRejected, process_product_classifies,
}
use conductor.Ingest.Processor.Accounts.{IsTallied, process_products-IsTallied}
use conductor.State.Memory.{memory_store, new_memory_store, get_product_hash}
use conductor.Api.Upsert.{persist_hashes, is_push_triggered}
use conductor.Api.Upsert.Again.{stored_hash, process_products_resubmitted}
use conductor.Tests.Data.{
  shuffle, host-Digests, host, host-Ranges, mug, turned_mug, untitled, mug_result,
}

validate_product_base_iff_example :
    (is_valid (validate_product_base mug) ≡ true) ↔ HasBaseFields mug
validate_product_base_iff_example = validate_product_base_iff mug

validate_channel_controls_iff_example :
    (is_valid (validate_channel_controls host mug ("google" ∷ [])) ≡ true)
    ↔ All (λ c. HasControl mug (channel_name host c)) ("google" ∷ [])
validate_channel_controls_iff_example =
    validate_channel_controls_iff host mug ("google" ∷ []) host-Ranges

looks_like_decimal_iff_example :
    (looks_like_decimal "12.50" ≡ true) ↔ ((IsPlain "12.50" ⊎ IsDotted "12.50") × HasDigit "12.50")
looks_like_decimal_iff_example = looks_like_decimal_iff "12.50"

normalize_for_hash_iff_example :
    (normalize_for_hash mug ≡ normalize_for_hash turned_mug) ↔ SameContent mug turned_mug
normalize_for_hash_iff_example = normalize_for_hash_iff mug turned_mug

-- A new product is enqueued.
mug_enqueued : process_product host mug ("google" ∷ []) none ≡ ok (mug_result, true)
unfolding process_product is_valid validate_product_base check_currency check_decimal
    looks_like_decimal require_non_empty trim_space validate_channel_controls check_channels
    collect_enabled insert to_lower check_google validate_control_state decide_product
    hash_normalized compute_disposition previous_hash check_channel decimal_loop trim_left
    trim_right is_space lower_char add_issue
mug_enqueued = refl

process_product_classifies_example :
    ((true ≡ true) × IsAcceptable host mug ("google" ∷ []) × IsDecided host mug none mug_result)
    ⊎ ((true ≡ false) × (¬ IsAcceptable host mug ("google" ∷ [])) × IsRejected mug mug_result)
process_product_classifies_example =
    process_product_classifies host mug ("google" ∷ []) none mug_result true host-Ranges
      mug_enqueued

-- A batch with one product that is enqueued and one that is refused.
abbrev pub batch : List Product
batch = mug ∷ untitled ∷ []

abbrev pub batch_output : ProcessOutput
batch_output = record {
  summary = record { received = 2; valid = 1; rejected = 1; unchanged = 0; enqueued = 1 };
  products =
      mug_result
      ∷ reject "untitled" "base_validation_failed" (validate_product_base untitled).issues
      ∷ [];
}

batch_processed : process_products host batch ("google" ∷ []) none ≡ ok batch_output
unfolding process_products process_loop tally_result process_product is_valid validate_product_base
    check_currency check_decimal looks_like_decimal require_non_empty trim_space
    validate_channel_controls check_channels collect_enabled insert to_lower check_google
    validate_control_state decide_product hash_normalized compute_disposition previous_hash
    check_channel decimal_loop trim_left trim_right is_space lower_char add_issue
batch_processed = refl

process_products-IsTallied_example :
    IsTallied batch_output
    × (map (λ r. r.product_key) batch_output.products ≡ map (λ p. p.product_key) batch)
    × (batch_output.summary.received ≡ batch_output.summary.valid + batch_output.summary.rejected)
    × (batch_output.summary.received ≡ length batch)
process_products-IsTallied_example =
    process_products-IsTallied host batch ("google" ∷ []) none batch_output batch_processed

-- The batch against an empty store.
pub batch_received :
    (t : ℕ)
    → process_products host batch ("google" ∷ []) (some (stored_hash t new_memory_store))
      ≡ ok batch_output
unfolding process_products process_loop tally_result process_product is_valid validate_product_base
    check_currency check_decimal looks_like_decimal require_non_empty trim_space
    validate_channel_controls check_channels collect_enabled insert to_lower check_google
    validate_control_state decide_product hash_normalized compute_disposition previous_hash
    check_channel decimal_loop trim_left trim_right is_space lower_char add_issue get_product_hash
    lookup
batch_received t = refl

pub batch-AreDistinct : AreDistinct (map (λ p. p.product_key) batch)
batch-AreDistinct = ((refl, tt), (tt, tt))

process_products_resubmitted_example :
    (out' : ProcessOutput) × (process_products host batch ("google" ∷ []) (
        some (
          stored_hash 7
            (persist_hashes (memory_store shuffle) 7 batch_output.products new_memory_store).1))
      ≡ ok out')
    × (out'.summary.enqueued ≡ 0)
    × (is_push_triggered out'.summary ≡ false)
process_products_resubmitted_example =
    process_products_resubmitted host shuffle 7 batch ("google" ∷ []) batch_output new_memory_store
      host-Digests batch-AreDistinct (batch_received 7)
