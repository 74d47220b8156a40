-- ===== src/Ingest/Delta.antt =====
-- internal/ingest/delta.go
use conductor.Prelude.{String, if◌then◌else◌}
use conductor.Prelude.Equality.{◌==◌, string_instance}
use conductor.Domain.{ProductDisposition, unchanged, enqueued}

pub record DeltaDecision : Type 0 where
  pub disposition : ProductDisposition
  pub reason : String

abbrev pub decide : ProductDisposition → String → DeltaDecision
decide d r = record { disposition = d; reason = r }

unfoldable pub compute_disposition : String → String → DeltaDecision
compute_disposition previous_hash current_hash =
    if previous_hash == ""
    then decide enqueued "new_product"
    else if previous_hash == current_hash
    then decide unchanged "no_change_detected"
    else decide enqueued "content_changed"
