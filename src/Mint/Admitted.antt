-- ===== src/Mint/Admitted.antt =====
-- A minted token at the authentication middleware.
use conductor.Prelude.{
  ℕ, ◌+◌, ◌<◌, String, false, ◌≡◌, ◌≢◌, refl, true, Bool-cases, inl, inr, some, [], ◌∷◌, Result, ok,
  err, if◌then◌else◌, arith, eq_iff,
}
use conductor.Prelude.Equality.{◌==◌, string_instance, nat_instance}
use conductor.Prelude.Text.{trim_space}
use conductor.Api.Context.{with_tenant_id}
use conductor.Api.Http.{Request, Handler, Clock, header, with_context}
use conductor.Api.Auth.{JwtLibrary, rs256, leeway, key_function, parse_and_validate_rs256}
use conductor.Api.Middleware.Tenant.{is_dev}
use conductor.Api.Middleware.Auth.{strip_prefix, invalid_token, auth_middleware}
use conductor.Startup.{Environ}
use conductor.Mint.{
  Flags, SignedClaims, SigningLibrary, minted_claims, printed, load_rsa_private_key_from_env, mint,
}

-- The two keys are a pair: at the moment `time` the parser takes what the private key has signed, if the
-- key function gives the public key for its algorithm and the expiry, with the leeway, is ahead.
pub record IsPair {P K : Type 0} (lib : SigningLibrary P) (jwt : JwtLibrary K) (time : ℕ) (priv : P)
    (key : K) : Type 0 where
  pub verifies :
      (c : SignedClaims) (token : String) (key_of : String → Result K)
      → lib.signed_string rs256 c priv ≡ ok token
      → key_of rs256 ≡ ok key
      → time < c.expires_at + leeway
      → jwt.parse_with_claims (rs256 ∷ []) leeway key_of token
        ≡ ok (record { claims = some c.claims; valid = true })

module _ {P K : Type 0} (lib : SigningLibrary P) (jwt : JwtLibrary K) (os : Environ) (flags : Flags)
    (priv : P) (key : K) (now time : ℕ) (pair : IsPair lib jwt time priv key)
    (loaded : load_rsa_private_key_from_env lib os flags.env_key ≡ ok priv) where
  printed-ok : (m : Result String) (token : String) → printed lib m ≡ ok token → m ≡ ok token
  printed-ok (err m) token e = cc
  printed-ok (ok t) token e = e

  mint-signed :
      (token : String)
      → mint lib flags os now ≡ ok token
      → lib.signed_string rs256 (minted_claims lib flags now) priv ≡ ok token
  unfolding mint
  mint-signed token =
      rw loaded (printed-ok (lib.signed_string rs256 (minted_claims lib flags now) priv) token)

  parse-mint :
      (token : String)
      → mint lib flags os now ≡ ok token
      → time < (minted_claims lib flags now).expires_at + leeway
      → parse_and_validate_rs256 jwt token (some key) ≡ (
          if flags.tenant == 0
          then err "tenant_id missing"
          else ok (record { tenant_id = flags.tenant }))
  unfolding parse_and_validate_rs256
  parse-mint token minted current =
      rw
        (pair.verifies (minted_claims lib flags now) token (key_function jwt key)
          (mint-signed token minted) refl current)
        refl

  -- Outside dev a request that bears a minted token, while the token has not expired, is served under the
  -- tenant that it was minted for; a token minted for tenant 0 is refused with status 401. The two keys
  -- are a pair, and the token is neither blank nor surrounded by blanks.
  pub auth_middleware-mint :
      {S : Type 0} (env token rest : String) (next : Handler S) (clock : Clock) (r : Request)
      (s : S)
      → is_dev env ≡ false
      → mint lib flags os now ≡ ok token
      → time < (minted_claims lib flags now).expires_at + leeway
      → strip_prefix "Bearer " (trim_space (header "Authorization" r)) ≡ some rest
      → trim_space rest ≡ token
      → token ≢ ""
      → auth_middleware jwt env (some key) (some next) clock r s ≡ (
          if flags.tenant == 0
          then (invalid_token, s)
          else next clock (with_context r (with_tenant_id r.context flags.tenant)) s)
  unfolding auth_middleware
  auth_middleware-mint env token rest next clock r s dev minted current bearer same filled =
      let parsed = parse-mint token minted current in
      elim (Bool-cases (flags.tenant == 0)) [
        | inl zero_tenant ↦
            ground (arith, dev, bearer, same, filled, parsed, zero_tenant, eq_iff token "")
        | inr named ↦ ground (arith, dev, bearer, same, filled, parsed, named, eq_iff token "")
      ]
