-- ===== src/Api/Middleware/Auth.antt =====
-- internal/api/middleware/auth_rs256.go
use Prim.Native.Char.{code}
use conductor.Prelude.{
  String, Bool, false, not, ◌||◌, Option, none, some, Result, ok, err, if◌then◌else◌, nat_eq,
}
use conductor.Prelude.Equality.{◌==◌, string_instance, nat_instance}
use conductor.Prelude.Text.{trim_space}
use conductor.Api.Context.{tenant_id, with_tenant_id, default_tenant_id}
use conductor.Api.Http.{Request, Response, Handler, header, bare, json_text, with_context}
use conductor.Api.Auth.{Claims, JwtLibrary, parse_and_validate_rs256}
use conductor.Api.Middleware.Tenant.{is_dev}

-- `strings.HasPrefix` and `strings.TrimPrefix` in one: what follows the prefix.
unfoldable pub strip_prefix : String → String → Option String
strip_prefix String.[] v = some v
strip_prefix (String.◌∷◌ p ps) String.[] = none
strip_prefix (String.◌∷◌ p ps) (String.◌∷◌ c v) =
    let rest = strip_prefix ps v in if nat_eq (code p) (code c) then rest else none

abbrev pub missing_token : Response
missing_token = json_text 401 "{\"error\":\"unauthorized\",\"message\":\"missing bearer token\"}"

abbrev pub empty_token : Response
empty_token = json_text 401 "{\"error\":\"unauthorized\",\"message\":\"empty bearer token\"}"

abbrev pub invalid_token : Response
invalid_token = json_text 401 "{\"error\":\"unauthorized\",\"message\":\"invalid token\"}"

-- In dev a request with a tenant of its own, or with no `Authorization`, is let through.
abbrev pub is_exempt : String → Request → Bool
is_exempt env r =
    if is_dev env
    then not (tenant_id r.context == default_tenant_id)
      || trim_space (header "Authorization" r) == ""
    else false

module _ {K : Type 0} (jwt : JwtLibrary K) {S : Type 0} where
  abbrev pub admit : Handler S → Result Claims → Handler S
  admit next (err m) clock r s = (invalid_token, s)
  admit next (ok claims) clock r s =
      next clock (with_context r (with_tenant_id r.context claims.tenant_id)) s

  abbrev pub check_bearer : Option K → Handler S → Option String → Handler S
  check_bearer public_key next none clock r s = (missing_token, s)
  check_bearer public_key next (some rest) clock r s =
      let token = trim_space rest in
      if token == ""
      then (empty_token, s)
      else admit next (parse_and_validate_rs256 jwt token public_key) clock r s

  unfoldable pub auth_middleware : String → Option K → Option (Handler S) → Handler S
  auth_middleware env public_key none clock r s = (bare 500, s)
  auth_middleware env public_key (some next) clock r s =
      if is_exempt env r
      then next clock r s
      else check_bearer public_key next
          (strip_prefix "Bearer " (trim_space (header "Authorization" r))) clock r s
