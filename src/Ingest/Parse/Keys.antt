-- ===== src/Ingest/Parse/Keys.antt =====
-- Which unknown keys a feed is reported to have.
use mathlib.Core.Path.{subst}
use mathlib.Core.List.Permᴰ
use conductor.Prelude.{
  String, concat, ◌≡◌, refl, sym, ap, ◌∙◌, ◌≢◌, ◌↔◌, ◌⊎◌, inl, inr, Bool, true, false, not, ◌&&◌,
  Option, none, some, List, [], ◌∷◌, ok, bind-eq-ok, arith, eq_iff, Any,
}
use conductor.Prelude.Equality.{string_instance}
use conductor.Prelude.Maps.{Map, lookup}
use conductor.Prelude.Sets.{
  contains, contains-add, AreDistinct, add-AreDistinct, AreDistinct-perm, contains-perm,
  Any-contains, member_of_Any,
}
use conductor.Prelude.Sorting.{IsSorted, sort_by-perm, sort_by-IsSorted}
use conductor.Prelude.Order.{text_le, text_le-IsTotal, sort_strings}
use conductor.Prelude.Text.{trim_space}
use conductor.Json.{Json}
use conductor.Domain.{Product, ChannelFields}
use conductor.Ingest.Decode.{Decoder}
use conductor.Ingest.Parse.{
  ParseResult, known_top_level_keys, known_channels, unknown_keys_of, add_channel_keys,
  normalize_keys, merge_keys, channel_from, decode_raw_map, decode_raw_array, parse_channel,
  parse_single_product, parse_items, parse_products_allow_unknown,
}

abbrev pub is_some {ℓ} : {A : Type ℓ} → Option A → Bool
is_some none = false
is_some (some _) = true

-- The map has the key.
abbrev pub has_key : String → Map String Json → Bool
has_key k m = is_some (lookup k m)

contains-unknown_keys_of :
    (k : String) (known : List String) (m : Map String Json)
    → contains k (unknown_keys_of known m) ≡ (has_key k m && not (contains k known))
unfolding unknown_keys_of lookup contains
contains-unknown_keys_of k known [] = refl
contains-unknown_keys_of k known ((j, v) ∷ m) = ground (
  arith,
  eq_iff j k,
  contains-unknown_keys_of k known m,
  contains-add j k (unknown_keys_of known m),
)

contains-add_channel_keys :
    (k : String) (cs u : List String)
    → (contains k (add_channel_keys cs u) ≡ true)
      ↔ ((contains k u ≡ true) ⊎ Any (λ c. k ≡ concat "channel." c) cs)
unfolding add_channel_keys contains
contains-add_channel_keys k [] u = ground arith
contains-add_channel_keys k (c ∷ cs) u = ground (
  arith,
  eq_iff (concat "channel." c) k,
  contains-add_channel_keys k cs u,
  contains-add (concat "channel." c) k (add_channel_keys cs u),
)

contains-normalize_keys :
    (k : String) (ks : List String)
    → (contains k (normalize_keys ks) ≡ true) ↔ ((k ≢ "") × Any (λ j. trim_space j ≡ k) ks)
unfolding normalize_keys contains
contains-normalize_keys k [] = ground arith
contains-normalize_keys k (j ∷ ks) = ground (
  arith,
  eq_iff (trim_space j) k,
  eq_iff (trim_space j) "",
  contains-normalize_keys k ks,
  contains-add (trim_space j) k (normalize_keys ks),
)

contains-merge_keys :
    (k : String) (ks u : List String)
    → (contains k (merge_keys ks u) ≡ true) ↔ ((contains k ks ≡ true) ⊎ (contains k u ≡ true))
unfolding merge_keys contains
contains-merge_keys k [] u = ground arith
contains-merge_keys k (j ∷ ks) u =
    ground (arith, contains-merge_keys k ks u, contains-add j k (merge_keys ks u))

-- The unknown keys of a channel block that is there.
abbrev pub HasChannelKey : Decoder → Option Json → String → Type 0
HasChannelKey d found c =
    (raw : Json) × (o : Map String Json) × (found ≡ some raw)
    × (decode_raw_map d raw ≡ ok o)
    × (has_key c o ≡ true)
    × (contains c known_channels ≡ false)

channel_from_iff :
    (d : Decoder) (found : Option Json) (channel : ChannelFields) (cs : List String) (c : String)
    → channel_from d found ≡ ok (channel, cs)
    → (contains c cs ≡ true) ↔ HasChannelKey d found c
unfolding parse_channel contains
channel_from_iff d none channel cs c e = (λ h. ground (arith, e, h), λ k. cc (k.2))
channel_from_iff d (some raw) channel cs c e =
    let (o, decoded, rest) = bind-eq-ok (decode_raw_map d raw) _ e in
    let same : unknown_keys_of known_channels o ≡ cs = ground arith in
    let has = contains-unknown_keys_of c known_channels o in
    (
      λ h. (raw, o, refl, decoded, ground arith, ground arith),
      λ k.
          let (raw', o', found, decoded', present, unknown) = k in
          let same_map : o ≡ o' = ground (arith, decoded, decoded', found) in
          ground (arith, same_map),
    )

-- The product's object has an unknown key of this spelling, on its top level or among its channels.
abbrev pub IsUnknown : Decoder → Map String Json → String → Type 0
IsUnknown d item j =
    ((has_key j item ≡ true) × (contains j known_top_level_keys ≡ false))
    ⊎ ((c : String) × (j ≡ concat "channel." c) × HasChannelKey d (lookup "channel" item) c)

-- The key stands for an unknown one of the product's object: it is one of them, trimmed, and is not
-- blank.
abbrev pub Reports : Decoder → String → Map String Json → Type 0
Reports d k item = (k ≢ "") × ((j : String) × (trim_space j ≡ k) × IsUnknown d item j)

IsUnknown-iff :
    (d : Decoder) (item : Map String Json) (channel : ChannelFields) (cs : List String) (j : String)
    → channel_from d (lookup "channel" item) ≡ ok (channel, cs)
    → (contains j (add_channel_keys cs (unknown_keys_of known_top_level_keys item)) ≡ true)
      ↔ IsUnknown d item j
IsUnknown-iff d item channel cs j e =
    let (split, join) =
      contains-add_channel_keys j cs (unknown_keys_of known_top_level_keys item) in
    let top = contains-unknown_keys_of j known_top_level_keys item in
    (
      λ h. elim (split h) [
        | inl t ↦ inl (ground (arith, top, t), ground (arith, top, t))
        | inr a ↦
            let (c, found, named) = member_of_Any _ cs a in
            inr (c, named, (channel_from_iff d (lookup "channel" item) channel cs c e).0 found)
      ],
      λ u. join (elim u [
        | inl t ↦ inl (ground (arith, top, t))
        | inr (c, named, has) ↦ inr (
            Any-contains _ c cs ((channel_from_iff d (lookup "channel" item) channel cs c e).1 has)
              named)
      ]),
    )

parse_single_product_unknown :
    (d : Decoder) (item : Map String Json) (p : Product) (u : List String) (k : String)
    → parse_single_product d item ≡ ok (p, u)
    → (contains k u ≡ true) ↔ Reports d k item
unfolding parse_single_product
parse_single_product_unknown d item p u k e =
    let ((channel, cs), from, rest) = bind-eq-ok (channel_from d (lookup "channel" item)) _ e in
    let unknown = add_channel_keys cs (unknown_keys_of known_top_level_keys item) in
    let same : normalize_keys unknown ≡ u = ground arith in
    let (to_any, of_any) = contains-normalize_keys k unknown in
    (
      λ h.
          let (filled, a) = to_any (ap (contains k) same ∙ h) in
          let (j, found, trimmed) = member_of_Any _ unknown a in
          (filled, (j, trimmed, (IsUnknown-iff d item channel cs j from).0 found)),
      λ r.
          let (filled, (j, trimmed, u')) = r in
          ap (contains k) (sym same)
          ∙ of_any (
            filled,
            Any-contains _ j unknown ((IsUnknown-iff d item channel cs j from).1 u') trimmed,
          ),
    )

parse_items_unknown :
    (d : Decoder) (items : List (Map String Json)) (ps : List Product) (u : List String)
    (k : String)
    → parse_items d items ≡ ok (ps, u)
    → (contains k u ≡ true) ↔ Any (Reports d k) items
unfolding parse_items contains
parse_items_unknown d [] ps u k e =
    let blank : u ≡ [] = ground arith in
    (λ h. ground (arith, ap (contains k) blank, h), λ a. absurd a)
parse_items_unknown d (item ∷ items) ps u k e =
    let ((p, iu), one, e₁) = bind-eq-ok (parse_single_product d item) _ e in
    let ((qs, v), rest, e₂) = bind-eq-ok (parse_items d items) _ e₁ in
    let same : merge_keys iu v ≡ u = ground arith in
    let (split, join) = contains-merge_keys k iu v in
    let (one_to, one_from) = parse_single_product_unknown d item p iu k one in
    let (rest_to, rest_from) = parse_items_unknown d items qs v k rest in
    (
      λ h. elim (split (ap (contains k) same ∙ h)) [
        | inl a ↦ inl (one_to a)
        | inr b ↦ inr (rest_to b)
      ],
      λ a.
          ap (contains k) (sym same)
          ∙ join (elim a [ inl r ↦ inl (one_from r) | inr b ↦ inr (rest_from b) ]),
    )

merge_keys-AreDistinct : (ks u : List String) → AreDistinct u → AreDistinct (merge_keys ks u)
unfolding merge_keys
merge_keys-AreDistinct [] u d = d
merge_keys-AreDistinct (k ∷ ks) u d =
    add-AreDistinct k (merge_keys ks u) (merge_keys-AreDistinct ks u d)

parse_items-AreDistinct :
    (d : Decoder) (items : List (Map String Json)) (ps : List Product) (u : List String)
    → parse_items d items ≡ ok (ps, u)
    → AreDistinct u
unfolding parse_items
parse_items-AreDistinct d [] ps u e =
    let blank : u ≡ [] = ground arith in subst AreDistinct (sym blank) tt
parse_items-AreDistinct d (item ∷ items) ps u e =
    let ((p, iu), one, e₁) = bind-eq-ok (parse_single_product d item) _ e in
    let ((qs, v), rest, e₂) = bind-eq-ok (parse_items d items) _ e₁ in
    let same : merge_keys iu v ≡ u = ground arith in
    subst AreDistinct same (merge_keys-AreDistinct iu v (parse_items-AreDistinct d items qs v rest))

-- What the warning of a parsed feed lists.
pub record ListsUnknown (d : Decoder) (body : String) (res : ParseResult) : Type 0 where
  pub feed : Json
  pub first : d.decode_first body ≡ ok feed
  pub items : List (Map String Json)
  pub objects : decode_raw_array d feed ≡ ok items
  pub sorted : IsSorted text_le res.warnings.unknown_keys
  pub distinct : AreDistinct res.warnings.unknown_keys
  pub listed :
      (k : String) → (contains k res.warnings.unknown_keys ≡ true) ↔ Any (Reports d k) items

-- The warning of a parsed feed lists, in order and once each, exactly the keys that some product of
-- the feed has and the service does not know, trimmed and not blank: keys of the product's object,
-- and, with the prefix "channel.", keys of its channel block.
pub parse_products_allow_unknown-ListsUnknown :
    (d : Decoder) (body : String) (res : ParseResult)
    → parse_products_allow_unknown d body ≡ ok res
    → ListsUnknown d body res
unfolding parse_products_allow_unknown
parse_products_allow_unknown-ListsUnknown d body res e =
    let (feed, first, e₁) = bind-eq-ok (d.decode_first body) _ e in
    let (items, objects, e₂) = bind-eq-ok (decode_raw_array d feed) _ e₁ in
    let ((ps, u), parsed, e₃) = bind-eq-ok (parse_items d items) _ e₂ in
    let same : sort_strings u ≡ res.warnings.unknown_keys = ground arith in
    record {
      feed = feed;
      first = first;
      items = items;
      objects = objects;
      sorted = subst (IsSorted text_le) same (sort_by-IsSorted text_le text_le-IsTotal u);
      distinct = subst AreDistinct same (
          AreDistinct-perm (Permᴰ.symm (sort_by-perm text_le u))
            (parse_items-AreDistinct d items ps u parsed));
      listed = λ k.
          let (to, from) = parse_items_unknown d items ps u k parsed in
          let moved : contains k res.warnings.unknown_keys ≡ contains k u =
            ap (contains k) (sym same) ∙ contains-perm k (sort_by-perm text_le u) in
          (λ h. to (sym moved ∙ h), λ a. moved ∙ from a);
    }
