-- ===== src/Broker/PublishProperties.antt =====
-- broker/publish_properties.go: the properties of a message on its way to a subscriber and in a
-- store. A slice is a list, since nil and empty slices are treated alike, but for the correlation
-- data; times are in nanoseconds.
pub mod RoundTrip
pub mod Expiry
pub mod Relay
use shark_mqtt.Prelude.{
  ℕ, ◌-◌, ◌/◌, ◌%◌, ◌^◌, Bool, true, false, not, ◌&&◌, ◌||◌, Option, none, some, List, [], Str,
  length, is_some, ltb, leb, ◌==◌, nat_eq, if◌then◌else◌,
}

-- The fields of `protocol.Properties` that a PUBLISH may have, without the topic alias.
pub record Properties : Type 0 where
  pub payload_format : Option ℕ
  pub message_expiry_interval : Option ℕ
  pub content_type : Str
  pub response_topic : Str
  pub correlation_data : Option Str
  pub user_properties : List (Str × Str)
  pub subscription_identifier : List ℕ

abbrev pub no_properties : Properties
no_properties = record {
  payload_format = none;
  message_expiry_interval = none;
  content_type = [];
  response_topic = [];
  correlation_data = none;
  user_properties = [];
  subscription_identifier = [];
}

-- `store.MessageProperties`
pub record MessageProperties : Type 0 where
  pub payload_format : Option ℕ
  pub content_type : Str
  pub response_topic : Str
  pub correlation_data : Option Str
  pub user_properties : List (Str × Str)
  pub subscription_identifier : List ℕ

abbrev pub no_message_properties : MessageProperties
no_message_properties = record {
  payload_format = none;
  content_type = [];
  response_topic = [];
  correlation_data = none;
  user_properties = [];
  subscription_identifier = [];
}

-- `time.Until` stops at the longest duration.
unfoldable pub until : ℕ → ℕ → ℕ
until now expires_at = let d = expires_at - now in if ltb (2 ^ 63 - 1) d then 2 ^ 63 - 1 else d

unfoldable pub remaining_expiry : ℕ → ℕ → ℕ
remaining_expiry now expires_at =
    let d = until now expires_at in
    if d == 0 then 0 else (if ltb d 1000000000 then 1000000000 else d) / 1000000000 % 2 ^ 32

abbrev pub relayed : Option Properties → Option Properties
relayed none = none
relayed (some p) =
    if is_some p.payload_format
      || not (length p.content_type == 0)
      || not (length p.response_topic == 0)
      || is_some p.correlation_data
      || not (length p.user_properties == 0)
    then some (record p { message_expiry_interval = none; subscription_identifier = [] })
    else none

abbrev pub or_no_properties : Option Properties → Properties
or_no_properties none = no_properties
or_no_properties (some p) = p

abbrev pub expiry_interval : ℕ → Option ℕ → Option ℕ
expiry_interval now none = none
expiry_interval now (some at) = some (remaining_expiry now at)

-- `forwardedPublishProperties` at the time `now`; `expires_at` is none where it is zero.
unfoldable pub forwarded_publish_properties :
    ℕ → Option Properties → List ℕ → Option ℕ → Option Properties
forwarded_publish_properties now input sub_ids expires_at =
    if length sub_ids == 0 && not (is_some expires_at)
    then relayed input
    else some (record (or_no_properties (relayed input)) {
      subscription_identifier = sub_ids;
      message_expiry_interval = expiry_interval now expires_at;
    })

unfoldable pub store_properties : Option Properties → MessageProperties
store_properties none = no_message_properties
store_properties (some p) = record {
  payload_format = p.payload_format;
  content_type = p.content_type;
  response_topic = p.response_topic;
  correlation_data = p.correlation_data;
  user_properties = p.user_properties;
  subscription_identifier = p.subscription_identifier;
}

unfoldable pub protocol_properties : MessageProperties → Option Properties
protocol_properties sp =
    if not (is_some sp.payload_format)
      && length sp.content_type == 0
      && length sp.response_topic == 0
      && not (is_some sp.correlation_data)
      && length sp.user_properties == 0
      && length sp.subscription_identifier == 0
    then none
    else some (record {
      payload_format = sp.payload_format;
      message_expiry_interval = none;
      content_type = sp.content_type;
      response_topic = sp.response_topic;
      correlation_data = sp.correlation_data;
      user_properties = sp.user_properties;
      subscription_identifier = sp.subscription_identifier;
    })
