-- ===== src/Ingest/Parse/Shape.antt =====
-- Which feeds the parser takes.
use mathlib.Core.Path.{subst}
use conductor.Prelude.{
  sym, ap, ◌∙◌, String, ◌≡◌, refl, ◌↔◌, Option, none, some, List, [], ◌∷◌, Result, Succeeds,
  bind-Succeeds, ok, ◌>>=◌, bind-eq-ok,
}
use conductor.Prelude.Equality.{string_instance}
use conductor.Prelude.Maps.{Map, lookup}
use conductor.Json.{Json, Items, null, bool, number, str, arr, obj, nil, cons}
use conductor.Domain.{Product}
use conductor.Ingest.Decode.{Decoder, raw_members}
use conductor.Ingest.Parse.{
  decode_raw_map, decode_raw_items, decode_raw_array, channel_from, parse_channel,
  parse_single_product, merge_keys, parse_items, parse_products_allow_unknown,
}

abbrev pub IsObject : Json → Type 0
IsObject null = Unit
IsObject (obj ms) = Unit
IsObject _ = ⊥

-- The channel block is missing, null or an object.
abbrev pub IsChannel : Option Json → Type 0
IsChannel none = Unit
IsChannel (some raw) = IsObject raw

-- A product is null or an object whose channel block is one.
abbrev pub IsItem : Json → Type 0
IsItem null = Unit
IsItem (obj ms) = IsChannel (lookup "channel" (raw_members ms []))
IsItem _ = ⊥

abbrev pub AreItems : Items → Type 0
AreItems nil = Unit
AreItems (cons v vs) = IsItem v × AreItems vs

-- A feed is null or an array of products.
abbrev pub IsFeed : Json → Type 0
IsFeed null = Unit
IsFeed (arr vs) = AreItems vs
IsFeed _ = ⊥

decode_raw_map_iff : (d : Decoder) (v : Json) → Succeeds (decode_raw_map d v) ↔ IsObject v
unfolding decode_raw_map
decode_raw_map_iff d null = (λ h. tt, λ h. ([], refl))
decode_raw_map_iff d (obj ms) = (λ h. tt, λ h. (raw_members ms [], refl))
decode_raw_map_iff d (bool b) = (λ h. cc (h.1), λ h. absurd h)
decode_raw_map_iff d (number n) = (λ h. cc (h.1), λ h. absurd h)
decode_raw_map_iff d (str s) = (λ h. cc (h.1), λ h. absurd h)
decode_raw_map_iff d (arr vs) = (λ h. cc (h.1), λ h. absurd h)

channel_from_shape :
    (d : Decoder) (found : Option Json) → Succeeds (channel_from d found) ↔ IsChannel found
unfolding parse_channel
channel_from_shape d none = (λ h. tt, λ h. (_, refl))
channel_from_shape d (some raw) = (
  λ h.
      let (o, decoded, rest) = bind-eq-ok (decode_raw_map d raw) _ h.1 in
      (decode_raw_map_iff d raw).0 (o, decoded),
  λ h.
      bind-Succeeds (decode_raw_map d raw) _ ((decode_raw_map_iff d raw).1 h)
        (λ o decoded. (_, refl)),
)

parse_single_product_shape :
    (d : Decoder) (item : Map String Json)
    → Succeeds (parse_single_product d item) ↔ IsChannel (lookup "channel" item)
unfolding parse_single_product
parse_single_product_shape d item = (
  λ h.
      let (c, from, rest) = bind-eq-ok (channel_from d (lookup "channel" item)) _ h.1 in
      (channel_from_shape d (lookup "channel" item)).0 (c, from),
  λ h.
      bind-Succeeds (channel_from d (lookup "channel" item)) _
        ((channel_from_shape d (lookup "channel" item)).1 h) (λ c from. (_, refl)),
)

ok_inj : {A : Type 0} {a b : A} → ◌≡◌ {A = Result A} (ok a) (ok b) → a ≡ b
ok_inj e = cc

IsItem-shape :
    (d : Decoder) (v : Json)
    → IsItem v ↔ (
        (item : Map String Json) × (decode_raw_map d v ≡ ok item)
        × IsChannel (lookup "channel" item))
unfolding decode_raw_map lookup
IsItem-shape d null = (λ h. ([], refl, tt), λ h. tt)
IsItem-shape d (obj ms) = (
  λ h. (raw_members ms [], refl, h),
  λ h. let (item, e, c) = h in subst (λ m. IsChannel (lookup "channel" m)) (sym (ok_inj e)) c,
)
IsItem-shape d (bool b) = (λ h. absurd h, λ h. cc (h.1))
IsItem-shape d (number n) = (λ h. absurd h, λ h. cc (h.1))
IsItem-shape d (str s) = (λ h. absurd h, λ h. cc (h.1))
IsItem-shape d (arr vs) = (λ h. absurd h, λ h. cc (h.1))

-- The objects of a feed, and what is made of them.
abbrev parse_all : Decoder → Items → Result (List Product × List String)
parse_all d vs = do items ← decode_raw_items d vs; parse_items d items

AreItems-parse_all : (d : Decoder) (vs : Items) → Succeeds (parse_all d vs) → AreItems vs
unfolding decode_raw_items parse_items
AreItems-parse_all d nil h = tt
AreItems-parse_all d (cons v vs) h =
    let (xs, decoded, parsed) = bind-eq-ok (decode_raw_items d (cons v vs)) _ h.1 in
    let (item, one, e₁) = bind-eq-ok (decode_raw_map d v) _ decoded in
    let (items, rest, e₂) = bind-eq-ok (decode_raw_items d vs) _ e₁ in
    let split = subst (λ l. parse_items d l ≡ ok h.0) (sym (ok_inj e₂)) parsed in
    let (p, single, e₃) = bind-eq-ok (parse_single_product d item) _ split in
    let (ps, all, e₄) = bind-eq-ok (parse_items d items) _ e₃ in
    (
      (IsItem-shape d v).1 (item, one, (parse_single_product_shape d item).0 (p, single)),
      AreItems-parse_all d vs (ps, subst (λ m. (m >>= parse_items d) ≡ ok ps) (sym rest) all),
    )

parse_all-Succeeds : (d : Decoder) (vs : Items) → AreItems vs → Succeeds (parse_all d vs)
unfolding decode_raw_items parse_items
parse_all-Succeeds d nil h = (([], []), refl)
parse_all-Succeeds d (cons v vs) h =
    let (item, one, ch) = (IsItem-shape d v).0 h.0 in
    let (p, single) = (parse_single_product_shape d item).1 ch in
    let (res, all) = parse_all-Succeeds d vs h.1 in
    let (items, rest, parsed) = bind-eq-ok (decode_raw_items d vs) _ all in
    ((p.0 ∷ res.0, merge_keys p.1 res.1), rw (one, rest, single, parsed) refl)

IsFeed-shape :
    (d : Decoder) (feed : Json) → Succeeds (decode_raw_array d feed >>= parse_items d) ↔ IsFeed feed
unfolding decode_raw_array parse_items
IsFeed-shape d null = (λ h. tt, λ h. (([], []), refl))
IsFeed-shape d (arr vs) = (AreItems-parse_all d vs, parse_all-Succeeds d vs)
IsFeed-shape d (bool b) = (λ h. cc (h.1), λ h. absurd h)
IsFeed-shape d (number n) = (λ h. cc (h.1), λ h. absurd h)
IsFeed-shape d (str s) = (λ h. cc (h.1), λ h. absurd h)
IsFeed-shape d (obj ms) = (λ h. cc (h.1), λ h. absurd h)

-- The parser takes a body exactly when its first value decodes and is a feed: null, or an array each
-- of whose elements is null or an object with a channel block that is missing, null or an object. No
-- other field of a product can make the feed fail, whatever its value.
pub parse_products_allow_unknown_iff :
    (d : Decoder) (body : String)
    → Succeeds (parse_products_allow_unknown d body)
      ↔ ((feed : Json) × (d.decode_first body ≡ ok feed) × IsFeed feed)
unfolding parse_products_allow_unknown
parse_products_allow_unknown_iff d body = (
  λ h.
      let (feed, first, e₁) = bind-eq-ok (d.decode_first body) _ h.1 in
      let (items, objects, e₂) = bind-eq-ok (decode_raw_array d feed) _ e₁ in
      let (parsed, all, e₃) = bind-eq-ok (parse_items d items) _ e₂ in
      (
        feed,
        first,
        (IsFeed-shape d feed).0
            (parsed, subst (λ m. (m >>= parse_items d) ≡ ok parsed) (sym objects) all),
      ),
  λ h.
      let (feed, first, shape) = h in
      let (parsed, all) = (IsFeed-shape d feed).1 shape in
      let (items, objects, e) = bind-eq-ok (decode_raw_array d feed) _ all in
      bind-Succeeds (d.decode_first body) _ (feed, first)
        (λ v found.
          let w = ok_inj (sym first ∙ found) in
          bind-Succeeds (decode_raw_array d v) _
            (items, subst (λ u. decode_raw_array d u ≡ ok items) w objects)
            (λ its read.
              bind-Succeeds (parse_items d its) _
                (
                  parsed,
                  subst (λ l. parse_items d l ≡ ok parsed)
                      (ok_inj (sym objects ∙ ap (decode_raw_array d) w ∙ read)) e,
                )
                (λ pr done. (_, refl)))),
)
