-- ===== src/Tests/Parse.antt =====
-- Tests of the parser of products.
use conductor.Prelude.{true, ◌≡◌, refl, ◌↔◌, none, some, [], ◌∷◌, ok, Succeeds}
use conductor.Prelude.Maps.{insert, lookup}
use conductor.Prelude.Sets.{contains, add}
use conductor.Prelude.Text.{trim_space, trim_left, trim_right, is_space}
use conductor.Prelude.Sorting.{sort_by}
use conductor.Json.{Json, null, bool, number, str, object, array}
use conductor.Domain.{Product}
use conductor.Ingest.Decode.{
  decode_any, put_member, decode_money, decode_money_pointer, decode_block,
}
use conductor.Ingest.Parse.{
  ParseResult, decode_raw_map, decode_raw_items, decode_raw_array, parse_channel,
  parse_single_product, parse_items, parse_products_allow_unknown, unknown_keys_of,
  add_channel_keys, normalize_keys, merge_keys,
}
use conductor.Ingest.Parse.Keys.{ListsUnknown, parse_products_allow_unknown-ListsUnknown}
use conductor.Ingest.Parse.Roundtrip.{product_object, parse_products_allow_unknown_roundtrip}
use conductor.Ingest.Parse.Shape.{IsFeed, parse_products_allow_unknown_iff}
use conductor.Tests.Data.{reading, mug}

-- A product with a price of the wrong kind, two titles, a channel that is not known, and two keys
-- that are not.
abbrev odd_product : Json
odd_product = object (
    ("title", str "Cup")
    ∷ (" colour", str "red")
    ∷ ("title", str "Mug")
    ∷ ("sale_price", str "9.99")
    ∷ ("channel", object (("tiktok", null) ∷ ("meta", null) ∷ []))
    ∷ ("  ", null)
    ∷ [])

abbrev odd_feed : Json
odd_feed = array (odd_product ∷ null ∷ [])

abbrev parsed_cup : Product
parsed_cup = record {
  product_key = "";
  group_key = "";
  title = "Mug";
  description = "";
  link = "";
  image_link = "";
  additional_image_links = [];
  brand = "";
  gtin = "";
  mpn = "";
  condition = "";
  availability = "";
  price = record { amount_decimal = ""; currency = "" };
  sale_price = some (record { amount_decimal = ""; currency = "" });
  options = [];
  attributes = [];
  channel = record {
    google = none;
    meta = some (record { control = record { state = "" } });
    yotpo = none;
  };
}

abbrev parsed_null : Product
parsed_null = record parsed_cup {
  title = "";
  sale_price = none;
  channel = record { google = none; meta = none; yotpo = none };
}

abbrev odd_result : ParseResult
odd_result = record {
  products = parsed_cup ∷ parsed_null ∷ [];
  warnings = record { unknown_keys = "channel.tiktok" ∷ "colour" ∷ [] };
}

parse_odd : parse_products_allow_unknown (reading odd_feed) "" ≡ ok odd_result
unfolding parse_products_allow_unknown parse_items parse_single_product parse_channel
    decode_raw_array decode_raw_items decode_raw_map unknown_keys_of add_channel_keys normalize_keys
    merge_keys insert lookup contains add trim_space trim_left trim_right is_space sort_by
    decode_money_pointer decode_money decode_block
parse_odd = refl

parse_products_allow_unknown-ListsUnknown_example : ListsUnknown (reading odd_feed) "" odd_result
parse_products_allow_unknown-ListsUnknown_example =
    parse_products_allow_unknown-ListsUnknown (reading odd_feed) "" odd_result parse_odd

parse_products_allow_unknown_iff_example :
    Succeeds (parse_products_allow_unknown (reading odd_feed) "")
    ↔ ((feed : Json) × (◌≡◌ {A = _} (ok odd_feed) (ok feed)) × IsFeed feed)
parse_products_allow_unknown_iff_example = parse_products_allow_unknown_iff (reading odd_feed) ""

abbrev painted_mug : Product
painted_mug = record mug {
  options = ("size", "L") ∷ [];
  attributes = ("depth", number "3") ∷ ("parts", object (("a", bool true) ∷ [])) ∷ [];
}

painted_mug_decoded :
    decode_any (reading null) (object (("a", bool true) ∷ [])) ≡ object (("a", bool true) ∷ [])
unfolding decode_any put_member
painted_mug_decoded = refl

parse_products_allow_unknown_roundtrip_example :
    parse_products_allow_unknown (reading (array (product_object painted_mug ∷ []))) ""
    ≡ ok (record { products = painted_mug ∷ []; warnings = record { unknown_keys = [] } })
unfolding decode_any put_member
parse_products_allow_unknown_roundtrip_example =
    parse_products_allow_unknown_roundtrip (reading (array (product_object painted_mug ∷ []))) ""
      (painted_mug ∷ [])
      (
        record {
          options = (tt, tt);
          attribute_keys = ((refl, tt), (tt, tt));
          attributes = (refl, (refl, tt));
        },
        tt,
      )
      refl
