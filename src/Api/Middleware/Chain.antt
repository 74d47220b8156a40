-- ===== src/Api/Middleware/Chain.antt =====
-- cmd/api/main.go: the handler chain. The authentication is the outer middleware, and the tenant
-- middleware stands between it and the handlers.
use conductor.Prelude.{String, ◌≡◌, refl, ◌≢◌, false, Option, some, ok, arith}
use conductor.Api.Context.{Context, tenant_id, with_tenant_id, default_tenant_id}
use conductor.Api.Http.{Request, Clock, Handler, header, with_context}
use conductor.Prelude.Text.{trim_space}
use conductor.Prelude.{eq_iff}
use conductor.Api.Auth.{JwtLibrary, Claims, parse_and_validate_rs256}
use conductor.Api.Middleware.Tenant.{tenant_middleware, is_dev}
use conductor.Api.Middleware.Auth.{strip_prefix, auth_middleware}

module _ {K : Type 0} (jwt : JwtLibrary K) {S : Type 0} where
  unfoldable pub root : String → Option K → Handler S → Handler S
  root env public_key mux =
      auth_middleware jwt env public_key (some (tenant_middleware env (some mux)))

-- A handler that answers by the tenant of the request's context.
abbrev pub ServesDefault : {S : Type 0} → Handler S → Handler S → Clock → Request → S → Type 0
ServesDefault served mux clock r s =
    (ctx : Context) × (tenant_id ctx ≡ default_tenant_id)
    × (served clock r s ≡ mux clock (with_context r ctx) s)

tenant_middleware-default :
    {S : Type 0} (env : String) (mux : Handler S) (clock : Clock) (r : Request) (s : S)
    → is_dev env ≡ false
    → ServesDefault (tenant_middleware env (some mux)) mux clock r s
unfolding tenant_middleware tenant_id with_tenant_id
tenant_middleware-default env mux clock r s h =
    (with_tenant_id r.context default_tenant_id, refl, ground arith)

-- Outside dev every request whose bearer token is accepted is served as the default tenant, whatever
-- tenant the token names: the tenant middleware, which runs after the authentication, writes over
-- the tenant that the token gave.
pub root-ServesDefault :
    {K S : Type 0} (jwt : JwtLibrary K) (env : String) (key : Option K) (mux : Handler S)
    (clock : Clock) (r : Request) (s : S) (rest : String) (claims : Claims)
    → is_dev env ≡ false
    → strip_prefix "Bearer " (trim_space (header "Authorization" r)) ≡ some rest
    → trim_space rest ≢ ""
    → parse_and_validate_rs256 jwt (trim_space rest) key ≡ ok claims
    → ServesDefault (root jwt env key mux) mux clock r s
unfolding root auth_middleware
root-ServesDefault jwt env key mux clock r s rest claims dev bearer named accepted =
    let r' = with_context r (with_tenant_id r.context claims.tenant_id) in
    let (ctx, default, served) = tenant_middleware-default env mux clock r' s dev in
    (ctx, default, ground (arith, eq_iff (trim_space rest) ""))
