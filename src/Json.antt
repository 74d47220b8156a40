-- ===== src/Json.antt =====
-- JSON documents, as `encoding/json` hands them to the program (`any`, `map[string]any` and
-- `json.RawMessage`). A number keeps its literal; an object keeps its members in document order.
use conductor.Prelude.{String, Bool, List, [], ◌∷◌}

mutual
  pub data Json : Type 0 where
    null : Json
    bool : Bool → Json
    number : String → Json
    str : String → Json
    arr : Items → Json
    obj : Members → Json

  pub data Items : Type 0 where
    nil : Items
    cons : Json → Items → Items

  pub data Members : Type 0 where
    end : Members
    member : String → Json → Members → Members

abbrev pub items : List Json → Items
items [] = nil
items (v ∷ vs) = cons v (items vs)

abbrev pub members : List (String × Json) → Members
members [] = end
members ((k, v) ∷ ms) = member k v (members ms)

-- `map[string]any{…}` and a slice of values.
abbrev pub object : List (String × Json) → Json
object ms = obj (members ms)

abbrev pub array : List Json → Json
array vs = arr (items vs)
