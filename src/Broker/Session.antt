-- ===== src/Broker/Session.antt =====
-- broker/session.go: the state of one client's session. A method takes and returns the session.
-- Fields that only pass through the methods modelled here (payload, properties) are bytes.
pub mod PacketId
pub mod Handshake
pub mod Outbound
pub mod Subscriptions
pub mod Manager
use shark_mqtt.Prelude.{
  ℕ, zero, suc, ◌+◌, ◌-◌, ◌%◌, ◌^◌, Bool, true, false, not, ◌&&◌, ◌||◌, Option, none, some, List,
  [], ◌∷◌, ◌++◌, Str, ltb, leb, length, is_some, ◌==◌, nat_eq, str_eq, if◌then◌else◌,
}
use shark_mqtt.Prelude.Map.{Map, lookup, insert, delete}

pub record InflightMsg : Type 0 where
  pub packet_id : ℕ
  pub qos : ℕ
  pub topic : Str
  pub payload : Str
  pub retain : Bool
  pub expires_at : Option ℕ
  pub properties : Option Str
  pub pending_pub_rel : Bool

pub record InboundQos2 : Type 0 where
  pub packet_id : ℕ
  pub qos : ℕ
  pub topic : Str
  pub payload : Str
  pub retain : Bool
  pub received_at : ℕ
  pub properties : Option Str

pub record OutboundMsg : Type 0 where
  pub topic : Str
  pub payload : Str
  pub deliver_qos : ℕ
  pub sub_ids : List ℕ
  pub expires_at : Option ℕ

-- The part of `Session` that the packet flows use. `outbound_unacked` is the bit pattern of an
-- int32, `packet_id_seq` is a uint16.
pub record Session : Type 0 where
  pub client_id : Str
  pub inflight : Map ℕ InflightMsg
  pub inbound_qos2 : Map ℕ InboundQos2
  pub packet_id_seq : ℕ
  pub topic_alias_max : ℕ
  pub outbound_window : ℕ
  pub outbound_unacked : ℕ
  pub outbound_queue : List OutboundMsg
  pub topic_aliases : Map ℕ Str

-- `s.packetIDSeq++`, and 1 in place of 0.
abbrev pub next_seq : ℕ → ℕ
next_seq seq = if (seq + 1) % 2 ^ 16 == 0 then 1 else (seq + 1) % 2 ^ 16

-- The loop over the attempts that are left. The result is the id and the new sequence.
unfoldable pub find_packet_id : ℕ → Map ℕ InflightMsg → ℕ → ℕ × ℕ
find_packet_id zero inflight seq = (seq, next_seq seq)
find_packet_id (suc attempts) inflight seq =
    let more = find_packet_id attempts inflight (next_seq seq) in
    if is_some (lookup seq inflight) then more else (seq, next_seq seq)

abbrev pub max_attempts : ℕ
max_attempts = 65535

unfoldable pub next_packet_id : Session → Session × ℕ
next_packet_id s =
    let (id, seq) = find_packet_id max_attempts s.inflight s.packet_id_seq in
    (record s { packet_id_seq = seq }, id)

unfoldable pub add_inflight : InflightMsg → Session → Session
add_inflight msg s = record s { inflight = insert msg.packet_id msg s.inflight }

unfoldable pub remove_inflight : ℕ → Session → Session × Bool
remove_inflight id s =
    if is_some (lookup id s.inflight)
    then (record s { inflight = delete id s.inflight }, true)
    else (s, false)

unfoldable pub get_inflight : ℕ → Session → Option InflightMsg
get_inflight id s = lookup id s.inflight

unfoldable pub mark_inflight_pub_rel : ℕ → Session → Session × Bool
mark_inflight_pub_rel id s = elim (lookup id s.inflight) [
  | none ↦ (s, false)
  | some msg ↦ if not (msg.qos == 2) then (s, false) else (
    record s { inflight = insert id (record msg { pending_pub_rel = true }) s.inflight },
    true,
  )
]

unfoldable pub add_inbound_qos2 : InboundQos2 → ℕ → Session → Session × Bool
add_inbound_qos2 msg max_pending s =
    if ltb 0 max_pending && leb max_pending (length s.inbound_qos2)
    then (s, false)
    else (record s { inbound_qos2 = insert msg.packet_id msg s.inbound_qos2 }, true)

unfoldable pub has_inbound_qos2 : ℕ → Session → Bool
has_inbound_qos2 id s = is_some (lookup id s.inbound_qos2)

unfoldable pub take_inbound_qos2 : ℕ → Session → Session × Option InboundQos2
take_inbound_qos2 id s = elim (lookup id s.inbound_qos2) [
  | none ↦ (s, none)
  | some msg ↦ (record s { inbound_qos2 = delete id s.inbound_qos2 }, some msg)
]

-- `true` is `nil`, `false` is `ErrTopicAliasOutOfRange`.
unfoldable pub register_topic_alias : ℕ → Str → Session → Session × Bool
register_topic_alias alias topic s =
    if s.topic_alias_max == 0 || ltb s.topic_alias_max alias
    then (s, false)
    else (record s { topic_aliases = insert alias topic s.topic_aliases }, true)

unfoldable pub resolve_topic_alias : ℕ → Session → Option Str
resolve_topic_alias alias s = lookup alias s.topic_aliases

-- An int32 is negative from 2 ^ 31 on.
abbrev pub is_negative : ℕ → Bool
is_negative n = leb (2 ^ 31) n

unfoldable pub can_send_outbound : Session → Bool
can_send_outbound s = is_negative s.outbound_unacked || ltb s.outbound_unacked s.outbound_window

unfoldable pub inc_outbound_unacked : Session → Session
inc_outbound_unacked s = record s { outbound_unacked = (s.outbound_unacked + 1) % 2 ^ 32 }

-- The loop ends in its first round: no other goroutine runs between the load and the swap.
unfoldable pub dec_outbound_unacked : Session → Session
dec_outbound_unacked s =
    if s.outbound_unacked == 0 || is_negative s.outbound_unacked
    then s
    else record s { outbound_unacked = s.outbound_unacked - 1 }

unfoldable pub reset_outbound_unacked : Session → Session
reset_outbound_unacked s = record s { outbound_unacked = 0 }

abbrev pub max_buffered_outbound : ℕ
max_buffered_outbound = 1000

unfoldable pub buffer_outbound : OutboundMsg → Session → Session × Bool
buffer_outbound msg s =
    if leb max_buffered_outbound (length s.outbound_queue)
    then (s, false)
    else (record s { outbound_queue = s.outbound_queue ++ msg ∷ [] }, true)

abbrev pub pop_from : List OutboundMsg → Session → Session × Option OutboundMsg
pop_from [] s = (s, none)
pop_from (msg ∷ rest) s = (record s { outbound_queue = rest }, some msg)

unfoldable pub pop_outbound : Session → Session × Option OutboundMsg
pop_outbound s = pop_from s.outbound_queue s

unfoldable pub outbound_queue_len : Session → ℕ
outbound_queue_len s = length s.outbound_queue
