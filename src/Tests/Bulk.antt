-- ===== src/Tests/Bulk.antt =====
-- Tests of the bulk upload.
use conductor.Prelude.{◌+◌, ◌≡◌, refl, false, some, [], ◌∷◌, ok, err, if◌then◌else◌}
use conductor.Prelude.Equality.{◌==◌, string_instance}
use conductor.Prelude.Maps.{insert, lookup}
use conductor.Prelude.Sets.{contains, add}
use conductor.Prelude.Text.{trim_space, trim_left, trim_right, is_space, to_lower}
use conductor.Json.{null}
use conductor.Ingest.Decode.{Decoder, decode_money_pointer, decode_money, decode_block}
use conductor.Ingest.Parse.{
  parse_product_object_allow_unknown, parse_single_product, parse_channel, decode_raw_map,
  unknown_keys_of, add_channel_keys, normalize_keys, merge_keys,
}
use conductor.Ingest.Parse.Roundtrip.{product_object}
use conductor.Ingest.Processor.{ProcessOutput, process_products, tally_result}
use conductor.Ingest.Processor.Accounts.{IsTallied}
use conductor.State.Memory.{memory_store, new_memory_store}
use conductor.Api.Context.{tenant_id}
use conductor.Api.Http.{Request, header}
use conductor.Api.Upsert.{Intake, persist_hashes, is_push_triggered}
use conductor.Api.Upsert.Again.{stored_hash}
use conductor.Api.Bulk.{
  Gzip, running, bulk_loop, take_line, no_output, invalid_line, scan, scan_lines, split_lines,
  drop_cr, byte_length, wrap_maybe_gzip,
}
use conductor.Api.Bulk.Tally.{filled_lines, bulk_loop-IsTallied}
use conductor.Api.Bulk.Batch.{AreProducts, done, blank, product, bulk_loop-process_products}
use conductor.Api.Bulk.Records.{KeepsRuns, Answers, uploading, bulk_upsert_handler_records}
use conductor.Api.Bulk.Cut.{IsCut, uploading-cut}
use conductor.Tests.Data.{host, host-Digests, shuffle, clock, post, reading, mug, untitled}
use conductor.Tests.Ingest.{batch, batch_output, batch_received, batch-AreDistinct}
use conductor.Tests.Api.{encoder}

-- A decoder that knows two texts.
abbrev pub catalogue : Decoder
catalogue = record (reading null) {
  decode_all = λ text.
      if text == "mug"
      then ok (product_object mug)
      else if text == "untitled"
      then ok (product_object untitled)
      else err "bad";
}

abbrev pub gzip : Gzip
gzip = record { new_reader = λ body. err "gzip: invalid header" }

abbrev pub bulk_intake : Intake
bulk_intake = record { new_run_id = ok "run_1"; decoder = catalogue }

-- A body that breaks off behind two products.
abbrev pub cut_request : Request
cut_request = record post {
  body = record { bytes = "mug\n\nuntitled\r\n"; failure = some "unexpected EOF" };
}

abbrev faulty_output : ProcessOutput
faulty_output = record {
  summary = record { received = 1; valid = 0; rejected = 1; unchanged = 0; enqueued = 0 };
  products = invalid_line "bad" ∷ [];
}

faulty_looped :
    bulk_loop host catalogue
      (memory_store shuffle)
      []
      7
      (" " ∷ "{" ∷ [])
      (running no_output [], new_memory_store)
    ≡ (running faulty_output [], new_memory_store)
unfolding bulk_loop take_line trim_space trim_left trim_right is_space
    parse_product_object_allow_unknown tally_result
faulty_looped = refl

bulk_loop-IsTallied_example :
    IsTallied faulty_output
    × (faulty_output.summary.received ≡ filled_lines (" " ∷ "{" ∷ []))
    × (faulty_output.summary.received
        ≡ faulty_output.summary.valid + faulty_output.summary.rejected)
bulk_loop-IsTallied_example =
    bulk_loop-IsTallied host catalogue (memory_store shuffle) [] 7 (" " ∷ "{" ∷ []) new_memory_store
      new_memory_store faulty_output [] faulty_looped

mug_parsed : parse_product_object_allow_unknown catalogue (trim_space "mug") ≡ ok (mug, [])
unfolding parse_product_object_allow_unknown parse_single_product parse_channel decode_raw_map
    unknown_keys_of add_channel_keys normalize_keys insert lookup contains add trim_space trim_left
    trim_right is_space decode_money_pointer decode_money decode_block
mug_parsed = refl

untitled_parsed :
    parse_product_object_allow_unknown catalogue (trim_space "untitled") ≡ ok (untitled, [])
unfolding parse_product_object_allow_unknown parse_single_product parse_channel decode_raw_map
    unknown_keys_of add_channel_keys normalize_keys insert lookup contains add trim_space trim_left
    trim_right is_space decode_money_pointer decode_money decode_block
untitled_parsed = refl

lines-AreProducts : AreProducts catalogue [] ("mug" ∷ "" ∷ "untitled" ∷ []) batch []
unfolding trim_space trim_left trim_right is_space merge_keys
lines-AreProducts = product refl mug_parsed (blank refl (product refl untitled_parsed (done [])))

bulk_loop-process_products_example :
    bulk_loop host catalogue
      (memory_store shuffle)
      ("google" ∷ [])
      7
      ("mug" ∷ "" ∷ "untitled" ∷ [])
      (running no_output [], new_memory_store)
    ≡ (
      running batch_output [],
      (persist_hashes (memory_store shuffle) 7 batch_output.products new_memory_store).1,
    )
bulk_loop-process_products_example =
    bulk_loop-process_products host shuffle catalogue 7 ("google" ∷ [])
      ("mug" ∷ "" ∷ "untitled" ∷ []) batch [] batch_output new_memory_store lines-AreProducts
      batch-AreDistinct (batch_received 7)

bulk_upsert_handler_records_example :
    Answers host encoder gzip bulk_intake shuffle
      ("google" ∷ [])
      clock
      cut_request
      new_memory_store
      (uploading host encoder gzip bulk_intake shuffle
        ("google" ∷ [])
        clock
        cut_request
        new_memory_store)
bulk_upsert_handler_records_example =
    bulk_upsert_handler_records host encoder gzip bulk_intake shuffle ("google" ∷ []) clock
      cut_request new_memory_store

cut_scanned : scan cut_request.body ≡ ("mug" ∷ "" ∷ "untitled" ∷ [], some "unexpected EOF")
unfolding scan_lines split_lines drop_cr byte_length
cut_scanned = refl

not_packed :
    wrap_maybe_gzip host gzip cut_request.body (header "Content-Encoding" cut_request)
    ≡ ok cut_request.body
unfolding trim_space trim_left trim_right is_space to_lower lookup
not_packed = refl

request-IsCut : IsCut host gzip bulk_intake cut_request batch
unfolding scan_lines split_lines drop_cr byte_length
request-IsCut = record {
  post = refl;
  id = "run_1";
  drawn = refl;
  reader = cut_request.body;
  wrapped = not_packed;
  message = "unexpected EOF";
  cut = refl;
  unknown = [];
  lines = lines-AreProducts;
}

uploading-cut_example :
    ((uploading host encoder gzip bulk_intake shuffle
        ("google" ∷ [])
        clock
        cut_request
        new_memory_store).0.status
      ≡ 400)
    × KeepsRuns new_memory_store
        (uploading host encoder gzip bulk_intake shuffle
          ("google" ∷ [])
          clock
          cut_request
          new_memory_store).1
    × ((out' : ProcessOutput) × (process_products host batch ("google" ∷ []) (
            some (
              stored_hash
                (tenant_id cut_request.context)
                (uploading host encoder gzip bulk_intake shuffle
                  ("google" ∷ [])
                  clock
                  cut_request
                  new_memory_store).1))
          ≡ ok out')
        × (out'.summary.enqueued ≡ 0)
        × (is_push_triggered out'.summary ≡ false))
uploading-cut_example =
    uploading-cut host encoder gzip bulk_intake shuffle ("google" ∷ []) clock cut_request
      new_memory_store batch batch_output host-Digests request-IsCut batch-AreDistinct
      (batch_received (tenant_id cut_request.context))
