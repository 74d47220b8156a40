-- ===== src/Ingest/Hash.antt =====
-- internal/ingest/hash.go
pub mod Maps
pub mod Content
use conductor.Prelude.{String, Option, none, some, List, [], ◌∷◌, map, Result, ok, ◌>>=◌}
use conductor.Prelude.Equality.{string_instance}
use conductor.Prelude.Maps.{Map, lookup}
use conductor.Prelude.Order.{sort_strings}
use conductor.Json.{Json, Members, null, str, obj, end, member, object, array}
use conductor.Domain.{
  Product, ChannelControl, GoogleFields, MetaFields, YotpoFields, Money, ChannelFields,
}
use conductor.Host.{Host}

abbrev pub keys {ℓ} : {V : Type ℓ} → Map String V → List String
keys m = map (λ e. e.0) m

-- `m[k]`, with the zero value where the key is missing.
abbrev pub index {ℓ} : {V : Type ℓ} → V → Map String V → String → V
index zero m k = elim (lookup k m) [ none ↦ zero | some v ↦ v ]

abbrev pub entry : String → Json → Json
entry k v = object (("k", str k) ∷ ("v", v) ∷ [])

unfoldable pub sorted_string_map : Map String String → Json
sorted_string_map m = array (map (λ k. entry k (str (index "" m k))) (sort_strings (keys m)))

unfoldable pub sorted_any_map : Map String Json → Json
sorted_any_map m = array (map (λ k. entry k (index null m k)) (sort_strings (keys m)))

abbrev pub money_map : Money → Json
money_map m = object (("amount_decimal", str m.amount_decimal) ∷ ("currency", str m.currency) ∷ [])

unfoldable pub sale_price_map : Option Money → Json
sale_price_map none = null
sale_price_map (some m) = money_map m

abbrev pub control_map : ChannelControl → Json
control_map c = object (("control", object (("state", str c.state) ∷ [])) ∷ [])

abbrev with_google : Option GoogleFields → Members → Members
with_google none ch = ch
with_google (some g) ch = member "google" (control_map g.control) ch

abbrev with_meta : Option MetaFields → Members → Members
with_meta none ch = ch
with_meta (some m) ch = member "meta" (control_map m.control) ch

abbrev with_yotpo : Option YotpoFields → Members → Members
with_yotpo none ch = ch
with_yotpo (some y) ch = member "yotpo" (control_map y.control) ch

-- The blocks that are present, in the order of their names.
unfoldable pub channel_map : ChannelFields → Json
channel_map c = obj (with_google c.google (with_meta c.meta (with_yotpo c.yotpo end)))

unfoldable pub normalize_for_hash : Product → Json
normalize_for_hash p = object (
    ("product_key", str p.product_key)
    ∷ ("group_key", str p.group_key)
    ∷ ("title", str p.title)
    ∷ ("description", str p.description)
    ∷ ("link", str p.link)
    ∷ ("image_link", str p.image_link)
    ∷ ("additional_image_links", array (map str (sort_strings p.additional_image_links)))
    ∷ ("brand", str p.brand)
    ∷ ("gtin", str p.gtin)
    ∷ ("mpn", str p.mpn)
    ∷ ("condition", str p.condition)
    ∷ ("availability", str p.availability)
    ∷ ("price", money_map p.price)
    ∷ ("sale_price", sale_price_map p.sale_price)
    ∷ ("options", sorted_string_map p.options)
    ∷ ("attributes", sorted_any_map p.attributes)
    ∷ ("channel", channel_map p.channel)
    ∷ [])

unfoldable pub hash_normalized : Host → Product → Result String
hash_normalized h p = do b ← h.marshal (normalize_for_hash p); ok (h.sha256_hex b)
