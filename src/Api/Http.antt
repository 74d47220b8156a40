-- ===== src/Api/Http.antt =====
-- What the handlers use of `net/http`: a request, the response that they write, and the clock.
use conductor.Prelude.{ℕ, String, Option, none, some, List, [], ◌∷◌}
use conductor.Prelude.Equality.{string_instance}
use conductor.Prelude.Maps.{Map, lookup}
use conductor.Api.Context.{Context}

-- A body as `io.ReadAll` finds it: the bytes that arrive, and the error that ends them, if any.
pub record RequestBody : Type 0 where
  pub bytes : String
  pub failure : Option String

-- `headers` and `query` hold the first value of each name.
pub record Request : Type 0 where
  pub method : String
  pub path : String
  pub headers : Map String String
  pub query : Map String String
  pub body : RequestBody
  pub context : Context

pub record Response : Type 0 where
  pub status : ℕ
  pub headers : List (String × String)
  pub body : String

-- The readings of the clock in one request: at the look-up of a cached response, at the record of a
-- new one, at the computation of its expiry, and at the creation of a run.
pub record Clock : Type 0 where
  pub looked_up : ℕ
  pub recorded : ℕ
  pub expiring : ℕ
  pub created : ℕ

-- A handler over a store's state.
abbrev pub Handler : Type 0 → Type 0
Handler S = Clock → Request → S → Response × S

abbrev or_missing : Option String → String
or_missing none = ""
or_missing (some v) = v

-- `r.Header.Get(name)` and `r.URL.Query().Get(name)`
abbrev pub header : String → Request → String
header name r = or_missing (lookup name r.headers)

abbrev pub query_value : String → Request → String
query_value name r = or_missing (lookup name r.query)

abbrev pub json_headers : List (String × String)
json_headers = ("Content-Type", "application/json; charset=utf-8") ∷ []

-- `w.WriteHeader(status)` alone.
abbrev pub bare : ℕ → Response
bare status = record { status = status; headers = []; body = "" }

-- A JSON text with its content type.
abbrev pub json_text : ℕ → String → Response
json_text status body = record { status = status; headers = json_headers; body = body }

abbrev pub with_context : Request → Context → Request
with_context r ctx = record r { context = ctx }
