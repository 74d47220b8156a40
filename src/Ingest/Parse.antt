-- ===== src/Ingest/Parse.antt =====
-- internal/ingest/parse_products.go
pub mod Keys
pub mod Roundtrip
pub mod Shape
use conductor.Prelude.{
  String, concat, Bool, true, false, Option, none, some, List, [], ◌∷◌, Result, ok, err, ◌>>=◌,
  if◌then◌else◌,
}
use conductor.Prelude.Equality.{◌==◌, string_instance}
use conductor.Prelude.Maps.{Map, lookup}
use conductor.Prelude.Sets.{contains, add}
use conductor.Prelude.Order.{sort_strings}
use conductor.Prelude.Text.{trim_space}
use conductor.Json.{Json, Items, null, arr, obj, nil, cons}
use conductor.Domain.{Product, ChannelFields, ChannelControl, GoogleFields, MetaFields, YotpoFields}
use conductor.Ingest.Decode.{
  Decoder, raw_members, decode_string, decode_strings, decode_text_map, decode_any_map,
  decode_money, decode_money_pointer, decode_block, no_money,
}

pub record UnknownKeyWarning : Type 0 where
  pub unknown_keys : List String

pub record ParseResult : Type 0 where
  pub products : List Product
  pub warnings : UnknownKeyWarning

abbrev pub known_top_level_keys : List String
known_top_level_keys =
    "product_key" ∷ "group_key" ∷ "title" ∷ "description" ∷ "link" ∷ "image_link"
    ∷ "additional_image_links" ∷ "brand" ∷ "gtin" ∷ "mpn" ∷ "condition" ∷ "availability" ∷ "price"
    ∷ "sale_price" ∷ "options" ∷ "attributes" ∷ "channel" ∷ []

abbrev pub known_channels : List String
known_channels = "google" ∷ "meta" ∷ "yotpo" ∷ []

-- The keys of a map that are not in the set of known ones.
unfoldable pub unknown_keys_of : List String → Map String Json → List String
unknown_keys_of known [] = []
unknown_keys_of known ((k, v) ∷ m) =
    let rest = unknown_keys_of known m in if contains k known then rest else add k rest

-- `unmarshalIfPresent`, at the decoder of the target's type.
abbrev pub unmarshal_if_present {ℓ} :
    {A : Type ℓ} → Map String Json → String → (Json → A → A) → A → A
unmarshal_if_present item key decode dst = elim (lookup key item) [
  | none ↦ dst
  | some raw ↦ decode raw dst
]

-- The loop that prefixes the keys of unknown channels.
unfoldable pub add_channel_keys : List String → List String → List String
add_channel_keys [] unknown = unknown
add_channel_keys (k ∷ ks) unknown = add (concat "channel." k) (add_channel_keys ks unknown)

-- The loop that trims the keys, and drops those that are blank.
unfoldable pub normalize_keys : List String → List String
normalize_keys [] = []
normalize_keys (k ∷ ks) =
    let rest = normalize_keys ks in let kk = trim_space k in if kk == "" then rest else add kk rest

-- The loop that takes the keys of one product into those of the feed.
unfoldable pub merge_keys : List String → List String → List String
merge_keys [] unknown = unknown
merge_keys (k ∷ ks) unknown = add k (merge_keys ks unknown)

abbrev pub set_to_sorted_slice : List String → List String
set_to_sorted_slice set = sort_strings set

abbrev pub no_channels : ChannelFields
no_channels = record { google = none; meta = none; yotpo = none }

abbrev pub no_control : ChannelControl
no_control = record { state = "" }

module _ (d : Decoder) where
  -- A `map[string]json.RawMessage`.
  unfoldable pub decode_raw_map : Json → Result (Map String Json)
  decode_raw_map null = ok []
  decode_raw_map (obj ms) = ok (raw_members ms [])
  decode_raw_map v = err (d.mismatch v)

  -- A `[]map[string]json.RawMessage`: the error is that of the first element of the wrong kind.
  unfoldable pub decode_raw_items : Items → Result (List (Map String Json))
  decode_raw_items nil = ok []
  decode_raw_items (cons v vs) = do
    item ← decode_raw_map v
    items ← decode_raw_items vs
    ok (item ∷ items)

  unfoldable pub decode_raw_array : Json → Result (List (Map String Json))
  decode_raw_array null = ok []
  decode_raw_array (arr vs) = decode_raw_items vs
  decode_raw_array v = err (d.mismatch v)

  abbrev pub google_block : Map String Json → Option GoogleFields
  google_block o = elim (lookup "google" o) [
    | none ↦ none
    | some v ↦ some (record { control = decode_block d v no_control })
  ]

  abbrev pub meta_block : Map String Json → Option MetaFields
  meta_block o = elim (lookup "meta" o) [
    | none ↦ none
    | some v ↦ some (record { control = decode_block d v no_control })
  ]

  abbrev pub yotpo_block : Map String Json → Option YotpoFields
  yotpo_block o = elim (lookup "yotpo" o) [
    | none ↦ none
    | some v ↦ some (record { control = decode_block d v no_control })
  ]

  -- The blocks, and the keys of the unknown channels.
  unfoldable pub parse_channel : Json → Result (ChannelFields × List String)
  parse_channel raw = do
    o ← decode_raw_map raw
    ok (
      record { google = google_block o; meta = meta_block o; yotpo = yotpo_block o },
      unknown_keys_of known_channels o,
    )

  abbrev pub channel_from : Option Json → Result (ChannelFields × List String)
  channel_from none = ok (no_channels, [])
  channel_from (some raw) = parse_channel raw

  -- The product but for its channel blocks.
  abbrev pub product_of : Map String Json → ChannelFields → Product
  product_of item channel = record {
    product_key = unmarshal_if_present item "product_key" decode_string "";
    group_key = unmarshal_if_present item "group_key" decode_string "";
    title = unmarshal_if_present item "title" decode_string "";
    description = unmarshal_if_present item "description" decode_string "";
    link = unmarshal_if_present item "link" decode_string "";
    image_link = unmarshal_if_present item "image_link" decode_string "";
    additional_image_links = unmarshal_if_present item "additional_image_links" decode_strings [];
    brand = unmarshal_if_present item "brand" decode_string "";
    gtin = unmarshal_if_present item "gtin" decode_string "";
    mpn = unmarshal_if_present item "mpn" decode_string "";
    condition = unmarshal_if_present item "condition" decode_string "";
    availability = unmarshal_if_present item "availability" decode_string "";
    price = unmarshal_if_present item "price" (decode_money d) (no_money d);
    sale_price = unmarshal_if_present item "sale_price" (decode_money_pointer d) none;
    options = unmarshal_if_present item "options" decode_text_map [];
    attributes = unmarshal_if_present item "attributes" (decode_any_map d) [];
    channel = channel;
  }

  unfoldable pub parse_single_product : Map String Json → Result (Product × List String)
  parse_single_product item = do
    (channel, ch_unknown) ← channel_from (lookup "channel" item)
    let unknown = add_channel_keys ch_unknown (unknown_keys_of known_top_level_keys item)
    ok (product_of item channel, normalize_keys unknown)

  -- The loop over the feed: the products in order, and the unknown keys of all.
  unfoldable pub parse_items : List (Map String Json) → Result (List Product × List String)
  parse_items [] = ok ([], [])
  parse_items (item ∷ items) = do
    (p, item_unknown) ← parse_single_product item
    (products, unknown) ← parse_items items
    ok (p ∷ products, merge_keys item_unknown unknown)

  unfoldable pub parse_products_allow_unknown : String → Result ParseResult
  parse_products_allow_unknown body = do
    feed ← d.decode_first body
    raw_items ← decode_raw_array feed
    (products, unknown) ← parse_items raw_items
    ok (record {
      products = products;
      warnings = record { unknown_keys = set_to_sorted_slice unknown };
    })

  unfoldable pub parse_product_object_allow_unknown : String → Result (Product × List String)
  parse_product_object_allow_unknown line = do
    value ← d.decode_all line
    item ← decode_raw_map value
    parse_single_product item
