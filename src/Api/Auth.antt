-- ===== src/Api/Auth.antt =====
-- internal/api/auth/jwt_rs256.go: the checks around the JWT library, which is a parameter.
use conductor.Prelude.{
  ℕ, String, concat, Bool, true, false, Option, none, some, List, [], ◌∷◌, Result, ok, err, ◌>>=◌,
  if◌then◌else◌,
}
use conductor.Prelude.Equality.{◌==◌, string_instance, nat_instance}

-- `Claims`; the registered claims are checked by the library.
pub record Claims : Type 0 where
  pub tenant_id : ℕ

-- A parsed token: its claims, where they are of the type `*Claims`, and its `Valid` flag.
pub record Token : Type 0 where
  pub claims : Option Claims
  pub valid : Bool

-- `jwt.Parser`: from the allowed methods, the leeway in nanoseconds and the key function, which
-- receives the token's algorithm.
pub record JwtLibrary (K : Type 0) : Type 0 where
  pub parse_with_claims : List String → ℕ → (String → Result K) → String → Result Token

abbrev pub rs256 : String
rs256 = "RS256"

abbrev pub leeway : ℕ
leeway = 30000000000

module _ {K : Type 0} (jwt : JwtLibrary K) where
  abbrev pub key_function : K → String → Result K
  key_function key alg = if alg == rs256 then ok key else err (concat "unexpected alg: " alg)

  abbrev pub check_claims : Option Claims → Bool → Result Claims
  check_claims none valid = err "invalid token"
  check_claims (some claims) false = err "invalid token"
  check_claims (some claims) true =
      if claims.tenant_id == 0 then err "tenant_id missing" else ok claims

  unfoldable pub parse_and_validate_rs256 : String → Option K → Result Claims
  parse_and_validate_rs256 token none = err "public key is nil"
  parse_and_validate_rs256 token (some key) = do
    tok ← jwt.parse_with_claims (rs256 ∷ []) leeway (key_function key) token
    check_claims tok.claims tok.valid
