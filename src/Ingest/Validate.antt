-- ===== src/Ingest/Validate.antt =====
-- internal/ingest/validate.go
pub mod Base
pub mod Channels
pub mod Decimal
use Prim.Native.Char.{code}
use conductor.Prelude.{
  ℕ, ◌+◌, String, len, concat, Bool, true, false, not, ◌&&◌, Option, none, some, List, [], ◌∷◌,
  ◌++◌, map, if◌then◌else◌, ltb, leb, nat_eq,
}
use conductor.Prelude.Equality.{◌==◌, string_instance}
use conductor.Prelude.Maps.{Map, insert}
use conductor.Prelude.Text.{trim_space}
use conductor.Domain.{
  Product, ChannelControl, GoogleFields, MetaFields, YotpoFields, state_active, state_inactive,
  state_delete,
}
use conductor.Host.{Host, lower}

pub record ValidationIssue : Type 0 where
  pub path : String
  pub code : String
  pub message : String

pub record ValidationResult : Type 0 where
  pub issues : List ValidationIssue

abbrev pub no_issues : ValidationResult
no_issues = record { issues = [] }

unfoldable pub is_valid : ValidationResult → Bool
is_valid r = elim r.issues [ [] ↦ true | _ ∷ _ ↦ false ]

unfoldable pub add_issue : ValidationResult → String → String → String → ValidationResult
add_issue r path code msg = record {
  issues = r.issues ++ record { path = path; code = code; message = msg } ∷ [];
}

abbrev pub is_blank : String → Bool
is_blank v = trim_space v == ""

unfoldable pub require_non_empty : ValidationResult → String → String → ValidationResult
require_non_empty r path v =
    if is_blank v then add_issue r path "required" "field is required" else r

-- The loop of `looksLikeDecimal`, with the dots and digits that it has met.
unfoldable pub decimal_loop : String → ℕ → ℕ → Bool
decimal_loop String.[] dot digit = ltb 0 digit
decimal_loop (String.◌∷◌ r v) dot digit =
    let after_dot = decimal_loop v (dot + 1) digit in
    let after_digit = decimal_loop v dot (digit + 1) in
    if nat_eq (code r) b'.'
    then (if ltb 1 (dot + 1) then false else after_dot)
    else if leb b'0' (code r) && leb (code r) b'9'
    then after_digit
    else false

unfoldable pub looks_like_decimal : String → Bool
unfolding decimal_loop
looks_like_decimal v = decimal_loop v 0 0

unfoldable pub check_decimal : Product → ValidationResult → ValidationResult
check_decimal p r =
    if not (p.price.amount_decimal == "") && not (looks_like_decimal p.price.amount_decimal)
    then add_issue r "price.amount_decimal" "invalid_decimal"
        "amount_decimal must look like a decimal number (e.g. \"19.99\")"
    else r

unfoldable pub check_currency : Product → ValidationResult → ValidationResult
check_currency p r =
    if not (p.price.currency == "") && not (nat_eq (len p.price.currency) 3)
    then add_issue r "price.currency" "invalid_currency"
        "currency must be a 3-letter ISO code (e.g. \"USD\")"
    else r

unfoldable pub validate_product_base : Product → ValidationResult
validate_product_base p =
    let r₁ = require_non_empty no_issues "product_key" p.product_key in
    let r₂ = require_non_empty r₁ "title" p.title in
    let r₃ = require_non_empty r₂ "description" p.description in
    let r₄ = require_non_empty r₃ "link" p.link in
    let r₅ = require_non_empty r₄ "image_link" p.image_link in
    let r₆ = require_non_empty r₅ "condition" p.condition in
    let r₇ = require_non_empty r₆ "availability" p.availability in
    let r₈ = require_non_empty r₇ "price.amount_decimal" p.price.amount_decimal in
    let r₉ = require_non_empty r₈ "price.currency" p.price.currency in
    check_currency p (check_decimal p r₉)

abbrev pub is_known_state : String → Bool
is_known_state state =
    if state == state_active
    then true
    else if state == state_inactive
    then true
    else state == state_delete

unfoldable pub validate_control_state : ValidationResult → String → String → ValidationResult
validate_control_state r path state =
    if is_known_state state
    then r
    else add_issue r path "invalid_state" "state must be one of: active, inactive, delete"

unfoldable pub check_google : Option GoogleFields → ValidationResult → ValidationResult
check_google none r =
    add_issue r "channel.google" "missing_channel_block"
      "google channel block is required because google is enabled for this feed"
check_google (some g) r = validate_control_state r "channel.google.control.state" g.control.state

unfoldable pub check_meta : Option MetaFields → ValidationResult → ValidationResult
check_meta none r =
    add_issue r "channel.meta" "missing_channel_block"
      "meta channel block is required because meta is enabled for this feed"
check_meta (some m) r = validate_control_state r "channel.meta.control.state" m.control.state

unfoldable pub check_yotpo : Option YotpoFields → ValidationResult → ValidationResult
check_yotpo none r =
    add_issue r "channel.yotpo" "missing_channel_block"
      "yotpo channel block is required because yotpo is enabled for this feed"
check_yotpo (some y) r = validate_control_state r "channel.yotpo.control.state" y.control.state

-- The body of the loop over the enabled channels.
unfoldable pub check_channel : Product → ValidationResult → String → ValidationResult
check_channel p r ch =
    if ch == "google"
    then check_google p.channel.google r
    else if ch == "meta"
    then check_meta p.channel.meta r
    else if ch == "yotpo"
    then check_yotpo p.channel.yotpo r
    else add_issue r (concat "channel." ch) "unknown_channel"
        "channel is enabled but not recognized by this service version"

unfoldable pub check_channels : Product → ValidationResult → List String → ValidationResult
unfolding check_channel
check_channels p r [] = r
check_channels p r (ch ∷ chs) = check_channels p (check_channel p r ch) chs

-- The set `enabled`, as a map with empty values.
unfoldable pub collect_enabled : Host → List String → Map String (Unit {0}) → Map String (Unit {0})
collect_enabled h [] enabled = enabled
collect_enabled h (c ∷ cs) enabled =
    collect_enabled h cs (insert (lower h (trim_space c)) tt enabled)

abbrev pub keys {ℓ} : {V : Type ℓ} → Map String V → List String
keys m = map (λ e. e.0) m

unfoldable pub validate_channel_controls : Host → Product → List String → ValidationResult
validate_channel_controls h p enabled_channels =
    check_channels p no_issues (h.iterate (keys (collect_enabled h enabled_channels [])))
