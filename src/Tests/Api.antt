-- ===== src/Tests/Api.antt =====
-- Tests of the middleware.
use conductor.Prelude.{
  map, ◌∷◌, [], String, ◌≡◌, refl, ◌≢◌, ◌⊎◌, true, false, some, ok, err, arith, eq_iff,
  if◌then◌else◌,
}
use conductor.Prelude.Equality.{◌==◌, string_instance}
use conductor.Prelude.Maps.{lookup}
use conductor.Prelude.Text.{trim_space, trim_left, trim_right, is_space, to_lower}
use conductor.State.Memory.{MemoryStore, new_memory_store, get_idempotency}
use conductor.Api.Http.{Handler, json_text, header}
use conductor.Api.Auth.{JwtLibrary, parse_and_validate_rs256}
use conductor.Api.Middleware.Tenant.{is_dev}
use conductor.Api.Middleware.Auth.{auth_middleware, strip_prefix}
use conductor.Api.Middleware.Chain.{root, ServesDefault, root-ServesDefault}
use conductor.Api.Middleware.Gate.{IsAdmitted, auth_middleware_gate}
use conductor.Api.Middleware.Replay.{guarded, IsRetry, IsUncached, guarded-retry}
use conductor.Api.Upsert.{Encoder, Intake}
use conductor.Api.Upsert.Records.{upserting, IsRecorded, upsert_handler_records}
use conductor.Json.{array}
use conductor.Ingest.Parse.Roundtrip.{product_object}
use conductor.Tests.Data.{reading, mug, untitled, host, shuffle, clock, post}

-- A library that takes the token "abc" for tenant 42.
abbrev pub jwt : JwtLibrary String
jwt = record {
  parse_with_claims = λ methods leeway key token.
      if token == "abc"
      then ok (record { claims = some (record { tenant_id = 42 }); valid = true })
      else err "bad token";
}

abbrev pub echo : Handler MemoryStore
echo = λ clock r s. (json_text 201 r.body.bytes, s)

abbrev pub teapot : Handler MemoryStore
teapot = λ clock r s. (json_text 418 "", s)

pub prod_not_dev : is_dev "prod" ≡ false
unfolding is_dev to_lower trim_space
prod_not_dev = refl

auth_middleware_gate_example :
    IsAdmitted jwt "prod" (some "key") echo clock post new_memory_store
    ⊎ (((auth_middleware jwt "prod" (some "key") (some echo) clock post new_memory_store).0.status
          ≡ 401)
        × ((auth_middleware jwt "prod" (some "key") (some echo) clock post new_memory_store).1
            ≡ new_memory_store))
auth_middleware_gate_example =
    auth_middleware_gate jwt "prod" (some "key") echo clock post new_memory_store prod_not_dev

pub bearer_found : strip_prefix "Bearer " (trim_space (header "Authorization" post)) ≡ some "abc"
unfolding strip_prefix trim_space trim_left trim_right is_space lookup
bearer_found = refl

bearer_filled : ¬ (trim_space "abc" ≡ "")
unfolding trim_space trim_left trim_right is_space
bearer_filled e = ground (arith, eq_iff "abc" "")

token_accepted :
    parse_and_validate_rs256 jwt (trim_space "abc") (some "key") ≡ ok (record { tenant_id = 42 })
unfolding parse_and_validate_rs256 trim_space trim_left trim_right is_space
token_accepted = refl

root-ServesDefault_example :
    ServesDefault (root jwt "prod" (some "key") echo) echo clock post new_memory_store
root-ServesDefault_example =
    root-ServesDefault jwt "prod" (some "key") echo clock post new_memory_store "abc"
      (record { tenant_id = 42 }) prod_not_dev bearer_found bearer_filled token_accepted

keyed : ¬ (trim_space (header "Idempotency-Key" post) ≡ "")
unfolding trim_space trim_left trim_right is_space lookup
keyed e = ground (arith, eq_iff "k1" "")

post-IsRetry : IsRetry post post
post-IsRetry = record {
  first = refl;
  again = refl;
  keyed = keyed;
  key = refl;
  endpoint = refl;
  tenant = refl;
}

post-IsUncached : IsUncached host 1000 post new_memory_store
unfolding get_idempotency lookup
post-IsUncached = refl

guarded-retry_example :
    guarded host shuffle teapot clock post (guarded host shuffle echo clock post new_memory_store).1
    ≡ (
      json_text
          (guarded host shuffle echo clock post new_memory_store).0.status
          (guarded host shuffle echo clock post new_memory_store).0.body,
      (guarded host shuffle echo clock post new_memory_store).1,
    )
guarded-retry_example =
    guarded-retry host shuffle echo teapot clock clock post post new_memory_store post-IsRetry
      post-IsUncached (omega arith)

-- A request that sends two products, the mug and the untitled one.
abbrev pub intake : Intake
intake = record {
  new_run_id = ok "run_1";
  decoder = reading (array (map product_object (mug ∷ untitled ∷ [])));
}

abbrev pub encoder : Encoder
encoder = record { failure = λ members. "{}"; run_response = λ resp. resp.run_id }

upsert_handler_records_example :
    IsRecorded host intake
      ("google" ∷ [])
      clock
      post
      new_memory_store
      (upserting host encoder intake shuffle ("google" ∷ []) clock post new_memory_store).0
      (upserting host encoder intake shuffle ("google" ∷ []) clock post new_memory_store).1
    ⊎ (((upserting host encoder intake shuffle ("google" ∷ []) clock post new_memory_store).0.status
          ≢ 200)
        × ((upserting host encoder intake shuffle ("google" ∷ []) clock post new_memory_store).1
            ≡ new_memory_store))
upsert_handler_records_example =
    upsert_handler_records host encoder intake shuffle ("google" ∷ []) clock post new_memory_store
