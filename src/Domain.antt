-- ===== src/Domain.antt =====
-- internal/domain: products, channel blocks, dispositions and run statuses.
use conductor.Prelude.{String, Bool, true, false, Option, List}
use conductor.Prelude.Maps.{Map}
use conductor.Json.{Json}

-- `ChannelLifecycleState` is a string that may hold anything a client sends.
abbrev pub state_active : String
state_active = "active"

abbrev pub state_inactive : String
state_inactive = "inactive"

abbrev pub state_delete : String
state_delete = "delete"

pub record ChannelControl : Type 0 where
  pub state : String

pub record GoogleFields : Type 0 where
  pub control : ChannelControl

pub record MetaFields : Type 0 where
  pub control : ChannelControl

pub record YotpoFields : Type 0 where
  pub control : ChannelControl

pub record ChannelFields : Type 0 where
  pub google : Option GoogleFields
  pub meta : Option MetaFields
  pub yotpo : Option YotpoFields

pub record Money : Type 0 where
  pub amount_decimal : String
  pub currency : String

pub record Product : Type 0 where
  pub product_key : String
  pub group_key : String
  pub title : String
  pub description : String
  pub link : String
  pub image_link : String
  pub additional_image_links : List String
  pub brand : String
  pub gtin : String
  pub mpn : String
  pub condition : String
  pub availability : String
  pub price : Money
  pub sale_price : Option Money
  pub options : Map String String
  pub attributes : Map String Json
  pub channel : ChannelFields

pub data ProductDisposition : Type 0 where
  rejected unchanged enqueued : ProductDisposition

-- Equality with each of the three dispositions.
abbrev pub is_rejected : ProductDisposition → Bool
is_rejected rejected = true
is_rejected _ = false

abbrev pub is_unchanged : ProductDisposition → Bool
is_unchanged unchanged = true
is_unchanged _ = false

abbrev pub is_enqueued : ProductDisposition → Bool
is_enqueued enqueued = true
is_enqueued _ = false

pub data RunStatus : Type 0 where
  completed no_change_detected has_changes : RunStatus

-- `string(status)`
abbrev pub status_text : RunStatus → String
status_text completed = "completed"
status_text no_change_detected = "no_change_detected"
status_text has_changes = "has_changes"
