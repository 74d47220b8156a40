-- ===== src/Api/Middleware/Gate.antt =====
-- What the authentication lets through.
use conductor.Prelude.{
  Result-cases, ℕ, String, ◌≡◌, refl, ◌≢◌, ◌⊎◌, inl, inr, Bool, true, false, Option, none, some, ok,
  bind-eq-ok, arith, nat_eq_iff, Bool-cases, Option-cases,
}
use conductor.Prelude.Equality.{◌==◌, string_instance}
use conductor.Prelude.Text.{trim_space}
use conductor.Api.Context.{Context, tenant_id, with_tenant_id}
use conductor.Api.Http.{Request, Clock, Handler, header, with_context}
use conductor.Api.Auth.{
  JwtLibrary, Claims, Token, check_claims, parse_and_validate_rs256, key_function, leeway, rs256,
}
use conductor.Prelude.{[], ◌∷◌}
use conductor.Api.Middleware.Tenant.{is_dev}
use conductor.Api.Middleware.Auth.{auth_middleware, strip_prefix}

-- The library has accepted the token under the configured key, as valid and with claims.
pub record IsVouched {K : Type 0} (jwt : JwtLibrary K) (key : Option K) (text : String)
    (claims : Claims) : Type 0 where
  pub configured : K
  pub present : key ≡ some configured
  pub token : Token
  pub parsed :
      jwt.parse_with_claims (rs256 ∷ []) leeway (key_function jwt configured) text ≡ ok token
  pub carried : token.claims ≡ some claims
  pub valid : token.valid ≡ true
  pub tenant : claims.tenant_id ≢ 0

check_claims-ok :
    {K : Type 0} (jwt : JwtLibrary K) (found : Option Claims) (valid : Bool) (claims : Claims)
    → check_claims jwt found valid ≡ ok claims
    → (found ≡ some claims) × (valid ≡ true) × (claims.tenant_id ≢ 0)
check_claims-ok jwt none valid claims h = cc
check_claims-ok jwt (some c) false claims h = cc
check_claims-ok jwt (some c) true claims h =
    (ground (arith, nat_eq_iff c.tenant_id 0), refl, ground (arith, nat_eq_iff c.tenant_id 0))

-- Claims are returned only for a token that the library vouches for, and name a tenant.
pub parse_and_validate_rs256_sound :
    {K : Type 0} (jwt : JwtLibrary K) (key : Option K) (token : String) (claims : Claims)
    → parse_and_validate_rs256 jwt token key ≡ ok claims
    → IsVouched jwt key token claims
unfolding parse_and_validate_rs256
parse_and_validate_rs256_sound jwt none token claims h = cc
parse_and_validate_rs256_sound jwt (some key) token claims h =
    let (tok, parsed, checked) =
      bind-eq-ok (jwt.parse_with_claims (rs256 ∷ []) leeway (key_function jwt key) token) _ h in
    let (carried, valid, tenant) = check_claims-ok jwt tok.claims tok.valid claims checked in
    record {
      configured = key;
      present = refl;
      token = tok;
      parsed = parsed;
      carried = carried;
      valid = valid;
      tenant = tenant;
    }

tenant_id-with : (t : ℕ) (ctx : Context) → t ≢ 0 → tenant_id (with_tenant_id ctx t) ≡ t
unfolding tenant_id with_tenant_id
tenant_id-with t ctx h = ground arith

-- A request that reaches the handler: its bearer token is vouched for, and the handler sees the
-- tenant of the token.
pub record IsAdmitted {K S : Type 0} (jwt : JwtLibrary K) (env : String) (key : Option K)
    (next : Handler S) (clock : Clock) (r : Request) (s : S) : Type 0 where
  pub claims : Claims
  pub bearer : String
  pub presented : strip_prefix "Bearer " (trim_space (header "Authorization" r)) ≡ some bearer
  pub vouched : IsVouched jwt key (trim_space bearer) claims
  pub context : Context
  pub tenant : tenant_id context ≡ claims.tenant_id
  pub served :
      auth_middleware jwt env key (some next) clock r s ≡ next clock (with_context r context) s

-- Outside dev a request either reaches the handler with a vouched token and under that token's
-- tenant, or is answered with status 401 and leaves the state alone.
pub auth_middleware_gate :
    {K S : Type 0} (jwt : JwtLibrary K) (env : String) (key : Option K) (next : Handler S)
    (clock : Clock) (r : Request) (s : S)
    → is_dev env ≡ false
    → IsAdmitted jwt env key next clock r s
      ⊎ (((auth_middleware jwt env key (some next) clock r s).0.status ≡ 401)
          × ((auth_middleware jwt env key (some next) clock r s).1 ≡ s))
unfolding auth_middleware
auth_middleware_gate jwt env key next clock r s dev =
    elim (Option-cases (strip_prefix "Bearer " (trim_space (header "Authorization" r)))) [
      | inl missing ↦ inr (ground arith, ground arith)
      | inr (rest, found) ↦ elim (Bool-cases (trim_space rest == "")) [
        | inl blank ↦ inr (ground arith, ground arith)
        | inr filled ↦ elim (Result-cases (parse_and_validate_rs256 jwt (trim_space rest) key)) [
          | inr (e, refused) ↦ inr (ground arith, ground arith)
          | inl (claims, accepted) ↦
              let v = parse_and_validate_rs256_sound jwt key (trim_space rest) claims accepted in
              inl (record {
                claims = claims;
                bearer = rest;
                presented = found;
                vouched = v;
                context = with_tenant_id r.context claims.tenant_id;
                tenant = tenant_id-with claims.tenant_id r.context v.tenant;
                served = ground arith;
              })
        ]
      ]
    ]
