-- ===== src/Ingest/Decode.antt =====
-- What `json.Unmarshal` does to the types that the parser decodes into. A value of the wrong kind
-- leaves its target as it is; the error that reports it is a result only where the program reads it.
use conductor.Prelude.{String, Option, none, some, List, [], ◌∷◌, Result, if◌then◌else◌}
use conductor.Prelude.Equality.{◌==◌, string_instance}
use conductor.Prelude.Maps.{Map, insert}
use conductor.Prelude.Order.{text_le}
use conductor.Json.{Json, Items, Members, null, bool, number, str, arr, obj, nil, cons, end, member}
use conductor.Domain.{Money, ChannelControl}

-- The decoder: the first value of a text (`Decoder.Decode`), a text that is one value
-- (`json.Unmarshal`), the message about a value of the wrong kind, the folding by which the names of
-- a struct's fields are matched, and the text of the nearest float64, if the number has one.
pub record Decoder : Type 0 where
  pub decode_first : String → Result Json
  pub decode_all : String → Result Json
  pub mismatch : Json → String
  pub fold_name : String → String
  pub float64 : String → Option String

-- Into a `string`; `null` changes nothing.
abbrev pub decode_string : Json → String → String
decode_string (str s) dst = s
decode_string _ dst = dst

-- Into a `[]string`, whose elements start out empty.
abbrev pub decode_items : Items → List String
decode_items nil = []
decode_items (cons v vs) = decode_string v "" ∷ decode_items vs

abbrev pub decode_strings : Json → List String → List String
decode_strings null dst = []
decode_strings (arr vs) dst = decode_items vs
decode_strings _ dst = dst

-- Into a map: the later of two members with one key wins.
abbrev pub decode_text_members : Members → Map String String → Map String String
decode_text_members end m = m
decode_text_members (member k v ms) m = decode_text_members ms (insert k (decode_string v "") m)

abbrev pub decode_text_map : Json → Map String String → Map String String
decode_text_map null dst = []
decode_text_map (obj ms) dst = decode_text_members ms dst
decode_text_map _ dst = dst

-- Into a `map[string]json.RawMessage`.
abbrev pub raw_members : Members → Map String Json → Map String Json
raw_members end m = m
raw_members (member k v ms) m = raw_members ms (insert k v m)

-- The field of a struct that a key stands for: the one of that name, or else the first whose name
-- is the same when folded.
unfoldable pub find_folded : (String → String) → List String → String → Option String
find_folded fold [] key = none
find_folded fold (name ∷ names) key =
    if fold name == fold key then some name else find_folded fold names key

unfoldable pub find_exact : List String → String → Option String
find_exact [] key = none
find_exact (name ∷ names) key = if name == key then some name else find_exact names key

abbrev or_folded : (String → String) → List String → String → Option String → Option String
or_folded fold names key none = find_folded fold names key
or_folded fold names key (some name) = some name

unfoldable pub field_of : (String → String) → List String → String → Option String
unfolding find_folded find_exact
field_of fold names key = or_folded fold names key (find_exact names key)

-- A member in front of the others of an object inside an `any`: a later one of its key wins. They are
-- kept in the order of their keys, since a Go map has no order of its own.
unfoldable pub put_member : String → Json → Members → Members
put_member k v end = member k v end
put_member k v (member j w ms) =
    let rest = put_member k v ms in
    if k == j
    then member j w ms
    else if text_le k j
    then member k v (member j w ms)
    else member j w rest

module _ (d : Decoder) where
  -- Into an `any`: numbers become float64; one that is out of range is left nil.
  abbrev any_number : Option String → Json
  any_number none = null
  any_number (some literal) = number literal

  unfoldable mutual
    unfolding put_member

    pub decode_any : Json → Json
    decode_any null = null
    decode_any (bool b) = bool b
    decode_any (number literal) = any_number (d.float64 literal)
    decode_any (str s) = str s
    decode_any (arr vs) = arr (any_items vs)
    decode_any (obj ms) = obj (any_members ms)

    pub any_items : Items → Items
    any_items nil = nil
    any_items (cons v vs) = cons (decode_any v) (any_items vs)

    pub any_members : Members → Members
    any_members end = end
    any_members (member k v ms) = put_member k (decode_any v) (any_members ms)

  abbrev pub decode_any_members : Members → Map String Json → Map String Json
  decode_any_members end m = m
  decode_any_members (member k v ms) m = decode_any_members ms (insert k (decode_any v) m)

  abbrev pub decode_any_map : Json → Map String Json → Map String Json
  decode_any_map null dst = []
  decode_any_map (obj ms) dst = decode_any_members ms dst
  decode_any_map _ dst = dst

  -- Into a `Money`.
  abbrev set_money : Option String → Json → Money → Money
  set_money none v m = m
  set_money (some name) v m =
      if name == "amount_decimal"
      then record m { amount_decimal = decode_string v m.amount_decimal }
      else record m { currency = decode_string v m.currency }

  unfoldable pub money_members : Members → Money → Money
  unfolding field_of
  money_members end m = m
  money_members (member k v ms) m =
      money_members ms (set_money (field_of d.fold_name ("amount_decimal" ∷ "currency" ∷ []) k) v m)

  unfoldable pub decode_money : Json → Money → Money
  unfolding money_members
  decode_money (obj ms) dst = money_members ms dst
  decode_money _ dst = dst

  abbrev pub no_money : Money
  no_money = record { amount_decimal = ""; currency = "" }

  abbrev target : Option Money → Money
  target none = no_money
  target (some m) = m

  -- Into a `*Money`: any value but `null` makes a new one where there is none, also one of the wrong
  -- kind.
  unfoldable pub decode_money_pointer : Json → Option Money → Option Money
  unfolding decode_money
  decode_money_pointer null dst = none
  decode_money_pointer v dst = some (decode_money v (target dst))

  -- Into a `ChannelControl`.
  abbrev set_state : Option String → Json → ChannelControl → ChannelControl
  set_state none v c = c
  set_state (some name) v c = record { state = decode_string v c.state }

  unfoldable pub control_members : Members → ChannelControl → ChannelControl
  unfolding field_of
  control_members end c = c
  control_members (member k v ms) c =
      control_members ms (set_state (field_of d.fold_name ("state" ∷ []) k) v c)

  unfoldable pub decode_control : Json → ChannelControl → ChannelControl
  unfolding control_members
  decode_control (obj ms) dst = control_members ms dst
  decode_control _ dst = dst

  -- Into one of the three channel blocks, each of which has the field `Control` alone.
  abbrev set_control : Option String → Json → ChannelControl → ChannelControl
  set_control none v c = c
  set_control (some name) v c = decode_control v c

  unfoldable pub block_members : Members → ChannelControl → ChannelControl
  unfolding field_of decode_control
  block_members end c = c
  block_members (member k v ms) c =
      block_members ms (set_control (field_of d.fold_name ("control" ∷ []) k) v c)

  unfoldable pub decode_block : Json → ChannelControl → ChannelControl
  unfolding block_members
  decode_block (obj ms) dst = block_members ms dst
  decode_block _ dst = dst
