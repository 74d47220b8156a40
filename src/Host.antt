-- ===== src/Host.antt =====
-- What the program takes from outside its source: the Unicode table behind `strings.ToLower`, the
-- order in which `range` visits a map with string keys, the encoder of `encoding/json`, and
-- SHA-256 in hexadecimal. Each is a parameter of the definitions that use it.
use Prim.Native.Char.{Char}
use conductor.Prelude.{String, List, Permᴰ, Result}
use conductor.Prelude.Text
use conductor.Json.{Json}

pub record Host : Type 0 where
  pub lower_rune : Char → Char
  pub iterate : List String → List String
  pub marshal : Json → Result String
  pub sha256_hex : String → String

-- A `range` visits every key once, in an order of the runtime's choice.
pub record Ranges (h : Host) : Type 0 where
  pub visits : (keys : List String) → Permᴰ (h.iterate keys) keys

abbrev pub lower : Host → String → String
lower h = Text.to_lower h.lower_rune
