-- ===== src/Ingest/Parse/Roundtrip.antt =====
-- A feed in the form in which a client writes it.
use conductor.Prelude.{
  String, ◌≡◌, refl, sym, ap, ◌∙◌, false, Option, none, some, List, [], ◌∷◌, ◌++◌, map, ok, arith,
  eq_iff, All, All-append,
}
use mathlib.Core.List.{append_assoc, append-nil}
use conductor.Prelude.Equality.{◌==◌, string_instance}
use conductor.Prelude.Maps.{Map, insert, lookup}
use conductor.Prelude.Sets.{AreDistinct, contains}
use conductor.Prelude.Sorting.{sort_by}
use conductor.Json.{Json, null, str, items, members, object, array}
use conductor.Domain.{
  Product, Money, ChannelFields, ChannelControl, GoogleFields, MetaFields, YotpoFields,
}
use conductor.Ingest.Decode.{
  Decoder, no_money, raw_members, decode_any, decode_items, decode_text_members, decode_any_members,
  decode_money, decode_money_pointer, decode_block, find_exact,
}
use conductor.Ingest.Parse.{
  decode_raw_map, decode_raw_items, decode_raw_array, parse_channel, parse_single_product,
  parse_items, parse_products_allow_unknown, unknown_keys_of, add_channel_keys, normalize_keys,
  merge_keys,
}

abbrev pub money_object : Money → Json
money_object m =
    object (("amount_decimal", str m.amount_decimal) ∷ ("currency", str m.currency) ∷ [])

abbrev pub sale_price_value : Option Money → Json
sale_price_value none = null
sale_price_value (some m) = money_object m

abbrev pub control_object : ChannelControl → Json
control_object c = object (("control", object (("state", str c.state) ∷ [])) ∷ [])

abbrev google_member : Option GoogleFields → List (String × Json) → List (String × Json)
google_member none ms = ms
google_member (some g) ms = ("google", control_object g.control) ∷ ms

abbrev meta_member : Option MetaFields → List (String × Json) → List (String × Json)
meta_member none ms = ms
meta_member (some m) ms = ("meta", control_object m.control) ∷ ms

abbrev yotpo_member : Option YotpoFields → List (String × Json) → List (String × Json)
yotpo_member none ms = ms
yotpo_member (some y) ms = ("yotpo", control_object y.control) ∷ ms

abbrev pub channel_object : ChannelFields → Json
channel_object c = object (google_member c.google (meta_member c.meta (yotpo_member c.yotpo [])))

abbrev pub text_members : Map String String → List (String × Json)
text_members m = map (λ e. (e.0, str e.1)) m

-- A product with all its fields.
abbrev pub product_members : Product → List (String × Json)
product_members p =
    ("product_key", str p.product_key)
    ∷ ("group_key", str p.group_key)
    ∷ ("title", str p.title)
    ∷ ("description", str p.description)
    ∷ ("link", str p.link)
    ∷ ("image_link", str p.image_link)
    ∷ ("additional_image_links", array (map str p.additional_image_links))
    ∷ ("brand", str p.brand)
    ∷ ("gtin", str p.gtin)
    ∷ ("mpn", str p.mpn)
    ∷ ("condition", str p.condition)
    ∷ ("availability", str p.availability)
    ∷ ("price", money_object p.price)
    ∷ ("sale_price", sale_price_value p.sale_price)
    ∷ ("options", object (text_members p.options))
    ∷ ("attributes", object p.attributes)
    ∷ ("channel", channel_object p.channel)
    ∷ []

abbrev pub keys_of_map {ℓ} : {V : Type ℓ} → Map String V → List String
keys_of_map m = map (λ e. e.0) m

-- The product can be written: its maps have each key once, and its attributes are values as the
-- decoder makes them, with numbers that float64 holds and objects in the order of their keys.
pub record IsWritable (d : Decoder) (p : Product) : Type 0 where
  pub options : AreDistinct (keys_of_map p.options)
  pub attribute_keys : AreDistinct (keys_of_map p.attributes)
  pub attributes : All (λ e. decode_any d e.1 ≡ e.1) p.attributes

decode_items-map : (l : List String) → decode_items (items (map str l)) ≡ l
decode_items-map [] = refl
decode_items-map (x ∷ xs) = ap (λ r. x ∷ r) (decode_items-map xs)

module _ {V : Type 0} where
  -- Writing all entries of a map into another.
  insert_all : Map String V → Map String V → Map String V
  insert_all [] acc = acc
  insert_all ((k, v) ∷ m) acc = insert_all m (insert k v acc)

  insert_fresh :
      (k : String) (v : V) (acc : Map String V)
      → All (λ e. (e.0 == k) ≡ false) acc
      → insert k v acc ≡ acc ++ (k, v) ∷ []
  unfolding insert
  insert_fresh k v [] a = refl
  insert_fresh k v ((j, w) ∷ acc) a = rw a.0 (ap (λ r. (j, w) ∷ r) (insert_fresh k v acc a.1))

  -- No key of the one map is a key of the other.
  abbrev AreApart : Map String V → Map String V → Type 0
  AreApart m acc = All (λ e. All (λ a. (a.0 == e.0) ≡ false) acc) m

  AreApart-extend :
      (k : String) (v : V) (m acc : Map String V)
      → All (λ j. (j == k) ≡ false) (keys_of_map m)
      → AreApart m acc
      → AreApart m (acc ++ (k, v) ∷ [])
  AreApart-extend k v [] acc d a = tt
  AreApart-extend k v (e ∷ m) acc d a = (
    All-append _ acc ((k, v) ∷ []) a.0 (ground (arith, d.0, eq_iff k e.0, eq_iff e.0 k), tt),
    AreApart-extend k v m acc d.1 a.1,
  )

  insert_all_apart :
      (m acc : Map String V)
      → AreDistinct (keys_of_map m)
      → AreApart m acc
      → insert_all m acc ≡ acc ++ m
  unfolding insert_all
  insert_all_apart [] acc d a = sym (append-nil acc)
  insert_all_apart ((k, v) ∷ m) acc d a =
      ap (insert_all m) (insert_fresh k v acc a.0)
      ∙ insert_all_apart m (acc ++ (k, v) ∷ []) d.1 (AreApart-extend k v m acc d.0 a.1)
      ∙ append_assoc acc ((k, v) ∷ []) m

AreApart-nil : {V : Type 0} (m : Map String V) → AreApart m []
AreApart-nil [] = tt
AreApart-nil (e ∷ m) = (tt, AreApart-nil m)

text_members-insert_all :
    (m acc : Map String String)
    → decode_text_members (members (text_members m)) acc ≡ insert_all m acc
unfolding insert_all
text_members-insert_all [] acc = refl
text_members-insert_all ((k, v) ∷ m) acc = text_members-insert_all m (insert k v acc)

any_members-insert_all :
    (d : Decoder) (m acc : Map String Json)
    → All (λ e. decode_any d e.1 ≡ e.1) m
    → decode_any_members d (members m) acc ≡ insert_all m acc
unfolding insert_all
any_members-insert_all d [] acc a = refl
any_members-insert_all d ((k, v) ∷ m) acc a =
    ap (λ w. decode_any_members d (members m) (insert k w acc)) a.0
    ∙ any_members-insert_all d m (insert k v acc) a.1

-- The object of a product, as the map that the parser looks its fields up in.
abbrev pub product_item : Product → Map String Json
product_item p = product_members p

raw_members-product_members :
    (p : Product) → raw_members (members (product_members p)) [] ≡ product_item p
unfolding insert
raw_members-product_members p = refl

price_roundtrip : (d : Decoder) (m n : Money) → decode_money d (money_object m) n ≡ m
unfolding decode_money find_exact
price_roundtrip d m n = refl

sale_price_roundtrip :
    (d : Decoder) (o : Option Money) → decode_money_pointer d (sale_price_value o) none ≡ o
unfolding decode_money_pointer find_exact
sale_price_roundtrip d none = refl
sale_price_roundtrip d (some m) = refl

channel_roundtrip :
    (d : Decoder) (c : ChannelFields) → parse_channel d (channel_object c) ≡ ok (c, [])
unfolding parse_channel decode_raw_map insert lookup unknown_keys_of contains decode_block
    find_exact
channel_roundtrip d c = go c.google c.meta c.yotpo
  where
    go :
        (g : Option GoogleFields) (m : Option MetaFields) (y : Option YotpoFields)
        → parse_channel d (channel_object (record { google = g; meta = m; yotpo = y }))
          ≡ ok (record { google = g; meta = m; yotpo = y }, [])
    go none none none = refl
    go none none (some y) = refl
    go none (some m) none = refl
    go none (some m) (some y) = refl
    go (some g) none none = refl
    go (some g) none (some y) = refl
    go (some g) (some m) none = refl
    go (some g) (some m) (some y) = refl

parse_single_product_roundtrip :
    (d : Decoder) (p : Product)
    → IsWritable d p
    → parse_single_product d (product_item p) ≡ ok (p, [])
unfolding parse_single_product lookup unknown_keys_of contains normalize_keys add_channel_keys
parse_single_product_roundtrip d p w =
    let images = decode_items-map p.additional_image_links in
    let price = price_roundtrip d p.price (no_money d) in
    let sale_price = sale_price_roundtrip d p.sale_price in
    let options =
      text_members-insert_all p.options []
      ∙ insert_all_apart p.options [] w.options (AreApart-nil p.options) in
    let attributes =
      any_members-insert_all d p.attributes [] w.attributes
      ∙ insert_all_apart p.attributes [] w.attribute_keys (AreApart-nil p.attributes) in
    rw (channel_roundtrip d p.channel) (λ i. ok (
      record p {
        additional_image_links = images i;
        price = price i;
        sale_price = sale_price i;
        options = options i;
        attributes = attributes i;
      },
      [],
    ))

-- The object of a product, as it stands in a feed.
abbrev pub product_object : Product → Json
product_object p = object (product_members p)

decode_raw_items_roundtrip :
    (d : Decoder) (ps : List Product)
    → decode_raw_items d (items (map product_object ps)) ≡ ok (map product_item ps)
unfolding decode_raw_items decode_raw_map
decode_raw_items_roundtrip d [] = refl
decode_raw_items_roundtrip d (p ∷ ps) =
    rw (raw_members-product_members p, decode_raw_items_roundtrip d ps) refl

parse_items_roundtrip :
    (d : Decoder) (ps : List Product)
    → All (IsWritable d) ps
    → parse_items d (map product_item ps) ≡ ok (ps, [])
unfolding parse_items merge_keys
parse_items_roundtrip d [] w = refl
parse_items_roundtrip d (p ∷ ps) w =
    rw (parse_single_product_roundtrip d p w.0, parse_items_roundtrip d ps w.1) refl

-- A feed that decodes to the array of its products' objects is parsed to these products, with no
-- unknown key, if the products can be written: their maps have each key once, and the values of their
-- attributes are as the decoder makes them.
pub parse_products_allow_unknown_roundtrip :
    (d : Decoder) (body : String) (ps : List Product)
    → All (IsWritable d) ps
    → d.decode_first body ≡ ok (array (map product_object ps))
    → parse_products_allow_unknown d body
      ≡ ok (record { products = ps; warnings = record { unknown_keys = [] } })
unfolding parse_products_allow_unknown decode_raw_array sort_by
parse_products_allow_unknown_roundtrip d body ps w e =
    rw (e, decode_raw_items_roundtrip d ps, parse_items_roundtrip d ps w) refl
