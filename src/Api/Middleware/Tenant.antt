-- ===== src/Api/Middleware/Tenant.antt =====
-- internal/api/middleware/tenant.go
use Prim.Native.Char.{code}
use conductor.Prelude.{
  ℕ, ◌+◌, ◌-◌, ◌*◌, String, Bool, ◌&&◌, Option, none, some, if◌then◌else◌, ltb, leb,
}
use conductor.Prelude.Equality.{◌==◌, string_instance}
use conductor.Prelude.Text.{trim_space, to_lower}
use conductor.Api.Context.{with_tenant_id, default_tenant_id}
use conductor.Api.Http.{Response, Handler, header, bare, json_text, with_context}

-- `strings.EqualFold(strings.TrimSpace(env), "dev")`: no character outside ASCII folds to a letter
-- of "dev".
unfoldable pub is_dev : String → Bool
is_dev env = to_lower (λ c. c) (trim_space env) == "dev"

-- `strconv.ParseUint(raw, 10, 64)`, with the value of the digits read so far.
unfoldable pub parse_digits : String → ℕ → Option ℕ
parse_digits String.[] n = some n
parse_digits (String.◌∷◌ c v) n =
    let m = n * 10 + (code c - b'0') in
    let rest = parse_digits v m in
    if leb b'0' (code c) && (leb (code c) b'9' && ltb m 18446744073709551616) then rest else none

unfoldable pub parse_uint64 : String → Option ℕ
unfolding parse_digits
parse_uint64 String.[] = none
parse_uint64 (String.◌∷◌ c v) = parse_digits (String.◌∷◌ c v) 0

abbrev pub invalid_tenant : Response
invalid_tenant =
    json_text 400
      "{\"error\":\"invalid_tenant_id\",\"message\":\"X-Tenant-ID must be a positive integer\"}"

module _ {S : Type 0} where
  abbrev pub set_tenant : Handler S → ℕ → Handler S
  set_tenant next tenant clock r s = next clock (with_context r (with_tenant_id r.context tenant)) s

  -- A header that is no number, or zero, is refused.
  abbrev pub from_header : Handler S → Option ℕ → Handler S
  from_header next none clock r s = (invalid_tenant, s)
  from_header next (some v) clock r s =
      if leb v 0 then (invalid_tenant, s) else set_tenant next v clock r s

  unfoldable pub tenant_middleware : String → Option (Handler S) → Handler S
  tenant_middleware env none clock r s = (bare 500, s)
  tenant_middleware env (some next) clock r s =
      let raw = trim_space (header "X-Tenant-ID" r) in
      if is_dev env
      then (if raw == ""
          then set_tenant next default_tenant_id clock r s
          else from_header next (parse_uint64 raw) clock r s)
      else set_tenant next default_tenant_id clock r s
