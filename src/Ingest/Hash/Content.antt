-- ===== src/Ingest/Hash/Content.antt =====
-- The normalised form is a complete invariant of a product's content.
use mathlib.Core.Path.{subst}
use mathlib.Core.List.Permᴰ
use conductor.Prelude.{
  String, ◌≡◌, refl, sym, ap, ap₂, ◌↔◌, Option, List, [], ◌∷◌, map, arith, eq_iff, Permᴰ,
}
use conductor.Prelude.Sorting.{sort_by-perm}
use conductor.Prelude.Order.{text_le, sort_strings, sort_strings-eq_of_perm}
use conductor.Json.{Json, Members, str, obj, member, items, array}
use conductor.Domain.{Product, Money, ChannelFields}
use conductor.Ingest.Hash.{sale_price_map, channel_map, money_map, normalize_for_hash}
use conductor.Ingest.Hash.Maps.{SameMap, sorted_string_map_iff, sorted_any_map_iff}

-- Two products that differ at most in the order of the additional images and in the order in which
-- the options and the attributes are kept.
pub record SameContent (p q : Product) : Type 0 where
  pub product_key : p.product_key ≡ q.product_key
  pub group_key : p.group_key ≡ q.group_key
  pub title : p.title ≡ q.title
  pub description : p.description ≡ q.description
  pub link : p.link ≡ q.link
  pub image_link : p.image_link ≡ q.image_link
  pub images : Permᴰ p.additional_image_links q.additional_image_links
  pub brand : p.brand ≡ q.brand
  pub gtin : p.gtin ≡ q.gtin
  pub mpn : p.mpn ≡ q.mpn
  pub condition : p.condition ≡ q.condition
  pub availability : p.availability ≡ q.availability
  pub price : p.price ≡ q.price
  pub sale_price : p.sale_price ≡ q.sale_price
  pub options : SameMap p.options q.options
  pub attributes : SameMap p.attributes q.attributes
  pub channel : p.channel ≡ q.channel

strings_inj : (xs ys : List String) → items (map str xs) ≡ items (map str ys) → xs ≡ ys
strings_inj [] [] h = refl
strings_inj [] (y ∷ ys) h = cc
strings_inj (x ∷ xs) [] h = cc
strings_inj (x ∷ xs) (y ∷ ys) h = ap₂ ◌∷◌ (cc) (strings_inj xs ys (cc))

images_inj :
    (xs ys : List String)
    → array (map str (sort_strings xs)) ≡ array (map str (sort_strings ys))
    → Permᴰ xs ys
images_inj xs ys h =
    let same = strings_inj (sort_strings xs) (sort_strings ys) (cc) in
    Permᴰ.trans (Permᴰ.symm (sort_by-perm text_le xs))
      (subst (λ l. Permᴰ l ys) (sym same) (sort_by-perm text_le ys))

money_inj : (a b : Money) → money_map a ≡ money_map b → a ≡ b
money_inj a b h = ground arith

sale_price_inj : (a b : Option Money) → sale_price_map a ≡ sale_price_map b → a ≡ b
unfolding sale_price_map
sale_price_inj a b h = ground arith

channel_inj : (a b : ChannelFields) → channel_map a ≡ channel_map b → a ≡ b
unfolding channel_map
channel_inj a b h =
    ground (arith, eq_iff "google" "meta", eq_iff "google" "yotpo", eq_iff "meta" "yotpo")

obj_inj : {a b : Members} → obj a ≡ obj b → a ≡ b
obj_inj h = cc

member_inj :
    {k : String} {v w : Json} {a b : Members} → member k v a ≡ member k w b → (v ≡ w) × (a ≡ b)
member_inj h = (cc, cc)

str_inj : {s t : String} → str s ≡ str t → s ≡ t
str_inj h = cc

-- Two products have the same normalised form exactly when they have the same content: every field
-- counts, and the order of images, options and attributes does not.
pub normalize_for_hash_iff :
    (p q : Product) → (normalize_for_hash p ≡ normalize_for_hash q) ↔ SameContent p q
unfolding normalize_for_hash
normalize_for_hash_iff p q = (sound, complete)
  where
    sound : normalize_for_hash p ≡ normalize_for_hash q → SameContent p q
    sound h =
        let start = obj_inj h in
        let (product_key, product_key_rest) = member_inj start in
        let (group_key, group_key_rest) = member_inj product_key_rest in
        let (title, title_rest) = member_inj group_key_rest in
        let (description, description_rest) = member_inj title_rest in
        let (link, link_rest) = member_inj description_rest in
        let (image_link, image_link_rest) = member_inj link_rest in
        let (images, images_rest) = member_inj image_link_rest in
        let (brand, brand_rest) = member_inj images_rest in
        let (gtin, gtin_rest) = member_inj brand_rest in
        let (mpn, mpn_rest) = member_inj gtin_rest in
        let (condition, condition_rest) = member_inj mpn_rest in
        let (availability, availability_rest) = member_inj condition_rest in
        let (price, price_rest) = member_inj availability_rest in
        let (sale_price, sale_price_rest) = member_inj price_rest in
        let (options, options_rest) = member_inj sale_price_rest in
        let (attributes, attributes_rest) = member_inj options_rest in
        let (channel, channel_rest) = member_inj attributes_rest in
        record {
          product_key = str_inj product_key;
          group_key = str_inj group_key;
          title = str_inj title;
          description = str_inj description;
          link = str_inj link;
          image_link = str_inj image_link;
          images = images_inj p.additional_image_links q.additional_image_links images;
          brand = str_inj brand;
          gtin = str_inj gtin;
          mpn = str_inj mpn;
          condition = str_inj condition;
          availability = str_inj availability;
          price = money_inj p.price q.price price;
          sale_price = sale_price_inj p.sale_price q.sale_price sale_price;
          options = (sorted_string_map_iff p.options q.options).0 options;
          attributes = (sorted_any_map_iff p.attributes q.attributes).0 attributes;
          channel = channel_inj p.channel q.channel channel;
        }

    complete : SameContent p q → normalize_for_hash p ≡ normalize_for_hash q
    complete s = cc (
      s.product_key,
      s.group_key,
      s.title,
      s.description,
      s.link,
      s.image_link,
      s.brand,
      s.gtin,
      s.mpn,
      s.condition,
      s.availability,
      s.price,
      s.sale_price,
      s.channel,
      ap (λ l. array (map str l)) (sort_strings-eq_of_perm s.images),
      (sorted_string_map_iff p.options q.options).1 s.options,
      (sorted_any_map_iff p.attributes q.attributes).1 s.attributes,
    )
