-- ===== src/Mint.antt =====
-- cmd/mint-token/main.go, and SignRS256ForTests of internal/api/auth/jwt_rs256.go.
pub mod Admitted
use conductor.Prelude.{
  ℕ, ◌+◌, ◌-◌, ℤ, pos, negsuc, String, concat, Option, none, some, Result, ok, err, if◌then◌else◌,
}
use conductor.Prelude.Equality.{◌==◌, string_instance}
use conductor.Prelude.Text.{trim_space, unescape_newlines}
use conductor.Api.Auth.{Claims, rs256}
use conductor.Startup.{Environ}

-- The flags of the command; the time to live is in nanoseconds, and may be negative.
pub record Flags : Type 0 where
  pub tenant : ℕ
  pub ttl : ℤ
  pub issuer : String
  pub subject : String
  pub env_key : String

abbrev pub default_flags : Flags
default_flags = record {
  tenant = 1;
  ttl = pos 1800000000000;
  issuer = "conductor";
  subject = "dev-client";
  env_key = "JWT_PRIVATE_KEY_PEM";
}

-- `auth.Claims` with the registered claims that are set.
pub record SignedClaims : Type 0 where
  pub claims : Claims
  pub issuer : String
  pub subject : String
  pub issued_at : ℕ
  pub expires_at : ℕ

-- The libraries: `pem.Decode` gives the type and the bytes of the first block, the parser of PKCS#8 a
-- key that may be of another kind than RSA, and `numeric_date` is the rounding of `NewNumericDate`.
pub record SigningLibrary (P : Type 0) : Type 0 where
  pub decode : String → Option (String × String)
  pub parse_pkcs1 : String → Result P
  pub parse_pkcs8 : String → Result (Option P)
  pub numeric_date : ℕ → ℕ
  pub signed_string : String → SignedClaims → P → Result String

-- `time.Time.Add`, for moments that are not before 1970.
abbrev pub add_duration : ℕ → ℤ → ℕ
add_duration now (pos n) = now + n
add_duration now (negsuc n) = now - (n + 1)

module _ {P : Type 0} (lib : SigningLibrary P) where
  abbrev pub pkcs1_key : Result P → Result P
  pkcs1_key (err m) = err (concat "parse pkcs1 private key failed: " m)
  pkcs1_key (ok priv) = ok priv

  abbrev pub pkcs8_key : Result (Option P) → Result P
  pkcs8_key (err m) = err (concat "parse pkcs8 private key failed: " m)
  pkcs8_key (ok none) = err "pkcs8 key is not rsa"
  pkcs8_key (ok (some priv)) = ok priv

  abbrev pub key_of_block : Option (String × String) → Result P
  key_of_block none = err "pem decode failed"
  key_of_block (some (block_type, bytes)) =
      if block_type == "RSA PRIVATE KEY"
      then pkcs1_key (lib.parse_pkcs1 bytes)
      else if block_type == "PRIVATE KEY"
      then pkcs8_key (lib.parse_pkcs8 bytes)
      else err (concat "unsupported pem type: " block_type)

  unfoldable pub load_rsa_private_key_from_env : Environ → String → Result P
  load_rsa_private_key_from_env os env_key =
      let raw = trim_space (os env_key) in
      if raw == ""
      then err (concat env_key " is not set")
      else key_of_block (lib.decode (unescape_newlines raw))

  abbrev pub minted_claims : Flags → ℕ → SignedClaims
  minted_claims flags now = record {
    claims = record { tenant_id = flags.tenant };
    issuer = flags.issuer;
    subject = flags.subject;
    issued_at = lib.numeric_date now;
    expires_at = lib.numeric_date (add_duration now flags.ttl);
  }

  abbrev pub printed : Result String → Result String
  printed (err m) = err (concat "sign token failed: " m)
  printed (ok token) = ok token

  abbrev pub mint_with : Flags → ℕ → Result P → Result String
  mint_with flags now (err m) = err (concat "load private key failed: " m)
  mint_with flags now (ok priv) = printed (lib.signed_string rs256 (minted_claims flags now) priv)

  -- The command: the token that it prints, or the message of its exit.
  unfoldable pub mint : Flags → Environ → ℕ → Result String
  mint flags os now = mint_with flags now (load_rsa_private_key_from_env os flags.env_key)

  -- The helper for tests sets no subject.
  unfoldable pub sign_rs256_for_tests : P → ℕ → ℤ → ℕ → Result String
  sign_rs256_for_tests priv tenant ttl now =
      lib.signed_string rs256
        (record {
          claims = record { tenant_id = tenant };
          issuer = "conductor";
          subject = "";
          issued_at = lib.numeric_date now;
          expires_at = lib.numeric_date (add_duration now ttl);
        })
        priv
