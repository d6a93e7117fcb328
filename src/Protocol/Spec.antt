-- ===== src/Protocol/Spec.antt =====
-- protocol/spec.go: what each protocol version can do.
use shark_mqtt.Prelude.{
  ℕ, Bool, true, false, Option, none, some, Str, codes, ◌==◌, nat_eq, if◌then◌else◌,
}

abbrev pub version31 : ℕ
version31 = 3

abbrev pub version311 : ℕ
version311 = 4

abbrev pub version50 : ℕ
version50 = 5

pub record Spec : Type 0 where
  pub version : ℕ
  pub name : Str
  pub allow_empty_id : Bool
  pub max_client_id_len : ℕ
  pub conn_ack_session_present : Bool
  pub conn_ack_has_reason_code : Bool
  pub sub_ack_failure_supported : Bool
  pub properties : Bool
  pub reason_codes : Bool
  pub server_disconnect : Bool
  pub topic_alias : Bool
  pub auth_packet : Bool
  pub retransmit_unacked : Bool

unfoldable pub spec_v31 : Spec
spec_v31 = record {
  version = version31;
  name = codes "MQIsdp";
  allow_empty_id = false;
  max_client_id_len = 23;
  conn_ack_session_present = false;
  conn_ack_has_reason_code = false;
  sub_ack_failure_supported = false;
  properties = false;
  reason_codes = false;
  server_disconnect = false;
  topic_alias = false;
  auth_packet = false;
  retransmit_unacked = true;
}

unfoldable pub spec_v311 : Spec
spec_v311 = record {
  version = version311;
  name = codes "MQTT";
  allow_empty_id = true;
  max_client_id_len = 0;
  conn_ack_session_present = true;
  conn_ack_has_reason_code = false;
  sub_ack_failure_supported = true;
  properties = false;
  reason_codes = false;
  server_disconnect = false;
  topic_alias = false;
  auth_packet = false;
  retransmit_unacked = true;
}

unfoldable pub spec_v50 : Spec
spec_v50 = record {
  version = version50;
  name = codes "MQTT";
  allow_empty_id = true;
  max_client_id_len = 0;
  conn_ack_session_present = true;
  conn_ack_has_reason_code = true;
  sub_ack_failure_supported = true;
  properties = true;
  reason_codes = true;
  server_disconnect = true;
  topic_alias = true;
  auth_packet = true;
  retransmit_unacked = false;
}

-- `SpecOf(v)`, `none` for an unknown version.
unfoldable pub spec_of : ℕ → Option Spec
unfolding spec_v31 spec_v311 spec_v50
spec_of v =
    if v == version31
    then some spec_v31
    else if v == version311
    then some spec_v311
    else if v == version50
    then some spec_v50
    else none
