-- ===== src/Broker/QosEngine.antt =====
-- broker/qos_engine.go: the table of deliveries that wait for an acknowledgment, and its retry
-- round. Times are numbers of one unit; a callback is a function to an error, and each call of one
-- is an `Effect`. The loop over a Go map visits the entries in the order of the list.
pub mod Steps
pub mod Bounds
pub mod Retry
pub mod Resent
pub mod Rounds
pub mod Invariant
pub mod Reach
use shark_mqtt.Prelude.{
  ℕ, zero, suc, ◌+◌, ◌-◌, Bool, true, false, not, ◌&&◌, Option, none, some, List, [], ◌∷◌, ◌++◌,
  Str, ltb, leb, length, is_some, ◌==◌, nat_eq, str_eq, if◌then◌else◌,
}
use shark_mqtt.Prelude.Map.{Map, lookup, insert, delete}
use shark_mqtt.Protocol.Spec.{spec_of}

pub data InflightState : Type 0 where
  state_sent state_acked : InflightState

pub record InflightMessage : Type 0 where
  pub packet_id : ℕ
  pub client_id : Str
  pub state : InflightState
  pub sent_at : ℕ
  pub retries : ℕ
  pub max_retries : ℕ
  pub topic : Str
  pub payload : Str
  pub qos : ℕ
  pub retain : Bool
  pub is_outbound : Bool

pub data QosError : Type 0 where
  inflight_full max_retries_exceeded : QosError
  -- the error of a callback
  send_failed : Str → QosError

-- A call of a callback.
pub data Effect : Type 0 where
  pub_rel : Str → ℕ → Effect
  pub_comp : Str → ℕ → Effect
  republished : Str → InflightMessage → Effect
  reported : Str → ℕ → QosError → Effect
  gave_up : Str → ℕ → Effect

-- The callbacks, `none` where none is set.
pub record Callbacks : Type 0 where
  pub send_pub_rel : Option (Str → ℕ → Option QosError)
  pub send_pub_comp : Option (Str → ℕ → Option QosError)
  pub republish : Option (Str → InflightMessage → Option QosError)
  pub has_on_error : Bool
  pub has_on_give_up : Bool

-- A negative limit, in an int of the source, acts as 0 does (no limit on the table, no retry): it is 0 here.
pub record QosEngine : Type 0 where
  pub inflight : Map Str (Map ℕ InflightMessage)
  pub max_inflight : ℕ
  pub retry_interval : ℕ
  pub max_retries : ℕ
  pub session_versions : Map Str ℕ
  pub callbacks : Callbacks

unfoldable pub new_qos_engine : ℕ → ℕ → ℕ → QosEngine
new_qos_engine max_inflight retry_interval max_retries = record {
  inflight = [];
  max_inflight = max_inflight;
  retry_interval = retry_interval;
  max_retries = max_retries;
  session_versions = [];
  callbacks = record {
    send_pub_rel = none;
    send_pub_comp = none;
    republish = none;
    has_on_error = false;
    has_on_give_up = false;
  };
}

unfoldable pub set_client_version : Str → ℕ → QosEngine → QosEngine
set_client_version client version q = record q {
  session_versions = insert client version q.session_versions;
}

-- A missing entry of `sessionVersions` reads as version 0.
abbrev pub version_of : Option ℕ → ℕ
version_of none = 0
version_of (some v) = v

unfoldable pub retransmit_permitted : Str → QosEngine → Bool
retransmit_permitted client q = elim (spec_of (version_of (lookup client q.session_versions))) [
  | none ↦ true
  | some spec ↦ spec.retransmit_unacked
]

abbrev pub or_empty : Option (Map ℕ InflightMessage) → Map ℕ InflightMessage
or_empty none = []
or_empty (some m) = m

abbrev pub client_inflight : Str → QosEngine → Map ℕ InflightMessage
client_inflight client q = or_empty (lookup client q.inflight)

-- `track`, at the time `now`. The client's table is made first, also where it is full.
unfoldable pub track :
    ℕ → Str → ℕ → Str → Str → Bool → ℕ → Bool → QosEngine → QosEngine × Option QosError
track now client id topic payload retain qos outbound q =
    let table = client_inflight client q in
    if ltb 0 q.max_inflight && leb q.max_inflight (length table)
    then (record q { inflight = insert client table q.inflight }, some inflight_full)
    else (
      record q {
        inflight =
            insert client
              (insert id
                (record {
                  packet_id = id;
                  client_id = client;
                  state = state_sent;
                  sent_at = now;
                  retries = 0;
                  max_retries = q.max_retries;
                  topic = topic;
                  payload = payload;
                  qos = qos;
                  retain = retain;
                  is_outbound = outbound;
                })
                table)
              q.inflight;
      },
      none,
    )

unfoldable pub track_qos1 : ℕ → Str → ℕ → Str → Str → Bool → QosEngine → QosEngine × Option QosError
track_qos1 now client id topic payload retain = track now client id topic payload retain 1 false

unfoldable pub track_qos2 : ℕ → Str → ℕ → Str → Str → Bool → QosEngine → QosEngine × Option QosError
track_qos2 now client id topic payload retain = track now client id topic payload retain 2 false

unfoldable pub track_outbound_qos1 :
    ℕ → Str → ℕ → Str → Str → Bool → QosEngine → QosEngine × Option QosError
track_outbound_qos1 now client id topic payload retain =
    track now client id topic payload retain 1 true

unfoldable pub track_outbound_qos2 :
    ℕ → Str → ℕ → Str → Str → Bool → QosEngine → QosEngine × Option QosError
track_outbound_qos2 now client id topic payload retain =
    track now client id topic payload retain 2 true

-- `msg.State = StateAcked` where the message is tracked.
abbrev pub mark_acked : ℕ → Map ℕ InflightMessage → Map ℕ InflightMessage
mark_acked id table = elim (lookup id table) [
  | none ↦ table
  | some msg ↦ insert id (record msg { state = state_acked }) table
]

abbrev pub update_client :
    Str → (Map ℕ InflightMessage → Map ℕ InflightMessage) → QosEngine → QosEngine
update_client client f q = elim (lookup client q.inflight) [
  | none ↦ q
  | some table ↦ record q { inflight = insert client (f table) q.inflight }
]

unfoldable pub track_outbound_qos2_awaiting_pub_comp :
    ℕ → Str → ℕ → Str → Str → Bool → QosEngine → QosEngine × Option QosError
unfolding track_outbound_qos2
track_outbound_qos2_awaiting_pub_comp now client id topic payload retain q =
    let (q', err) = track_outbound_qos2 now client id topic payload retain q in
    elim err [ some e ↦ (q', some e) | none ↦ (update_client client (mark_acked id) q', none) ]
