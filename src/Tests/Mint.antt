-- ===== src/Tests/Mint.antt =====
-- A token that the command mints, presented to the API.
use conductor.Prelude.{
  ◌+◌, ◌<◌, String, ◌≡◌, ◌≢◌, refl, none, some, ok, err, if◌then◌else◌, arith, eq_iff, nat_eq_iff,
}
use conductor.Prelude.Equality.{◌==◌, string_instance, nat_instance}
use conductor.Prelude.Text.{trim_space, trim_left, trim_right, is_space, unescape_newlines}
use conductor.State.Memory.{new_memory_store}
use conductor.Api.Context.{with_tenant_id}
use conductor.Api.Http.{with_context}
use conductor.Api.Auth.{leeway}
use conductor.Api.Middleware.Auth.{invalid_token, auth_middleware}
use conductor.Startup.{Environ}
use conductor.Mint.{
  Flags, default_flags, SigningLibrary, minted_claims, load_rsa_private_key_from_env, mint,
}
use conductor.Mint.Admitted.{IsPair, auth_middleware-mint}
use conductor.Tests.Data.{clock, post}
use conductor.Tests.Api.{jwt, echo, prod_not_dev, bearer_found}

-- A library that signs for tenant 42 only, with the token "abc".
abbrev signer : SigningLibrary String
signer = record {
  decode = λ raw. some ("RSA PRIVATE KEY", raw);
  parse_pkcs1 = λ bytes. ok bytes;
  parse_pkcs8 = λ bytes. ok none;
  numeric_date = λ t. t;
  signed_string = λ alg c priv. if c.claims.tenant_id == 42 then ok "abc" else err "no such tenant";
}

abbrev environ : Environ
environ name = if name == "JWT_PRIVATE_KEY_PEM" then "private" else ""

abbrev flags : Flags
flags = record default_flags { tenant = 42 }

signer-IsPair : IsPair signer jwt 1000 "private" "key"
signer-IsPair = record {
  verifies = λ c token key_of signed public current.
      ground (arith, signed, nat_eq_iff c.claims.tenant_id 42, eq_iff token "abc");
}

key_loaded : load_rsa_private_key_from_env signer environ "JWT_PRIVATE_KEY_PEM" ≡ ok "private"
unfolding load_rsa_private_key_from_env unescape_newlines trim_space trim_left trim_right is_space
key_loaded = refl

flags_minted : mint signer flags environ 0 ≡ ok "abc"
unfolding mint load_rsa_private_key_from_env unescape_newlines trim_space trim_left trim_right
    is_space
flags_minted = refl

abc_trimmed : trim_space "abc" ≡ "abc"
unfolding trim_space trim_left trim_right is_space
abc_trimmed = refl

abc_filled : ◌≢◌ {A = String} "abc" ""
abc_filled e = ground (arith, eq_iff "abc" "")

not_expired : 1000 < (minted_claims signer flags 0).expires_at + leeway
not_expired = omega arith

auth_middleware-mint_example :
    auth_middleware jwt "prod" (some "key") (some echo) clock post new_memory_store ≡ (
      if flags.tenant == 0
      then (invalid_token, new_memory_store)
      else echo clock
          (with_context post (with_tenant_id post.context flags.tenant))
          new_memory_store)
auth_middleware-mint_example =
    auth_middleware-mint signer jwt environ flags "private" "key" 0 1000 signer-IsPair key_loaded
      "prod" "abc" "abc" echo clock post new_memory_store prod_not_dev flags_minted not_expired
      bearer_found abc_trimmed abc_filled
