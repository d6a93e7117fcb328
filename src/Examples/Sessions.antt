-- ===== src/Examples/Sessions.antt =====
-- A session at concrete packets.
use shark_mqtt.Prelude.{◌+◌, ◌<◌, ◌≤◌, ◌≡◌, refl, false, none, [], ◌∷◌, codes, arith, nat_eq}
use shark_mqtt.Prelude.Map.{lookup}
use shark_mqtt.Broker.Session
use shark_mqtt.Broker.Session.{
  InflightMsg, InboundQos2, can_send_outbound, inc_outbound_unacked, OutboundMsg, next_packet_id,
  remove_inflight, mark_inflight_pub_rel, add_inbound_qos2, has_inbound_qos2, take_inbound_qos2,
  register_topic_alias, resolve_topic_alias, max_buffered_outbound, buffer_outbound,
  outbound_queue_len,
}
use shark_mqtt.Broker.Session.PacketId.{IsPacketId, next_packet_id_free}
use shark_mqtt.Broker.Session.Outbound.{
  Flow, FlowRun, start_delivery, count_delivery, starts, counts, here, then_step, unacked-le-window,
}

abbrev delivery : InflightMsg
delivery = record {
  packet_id = 65535;
  qos = 2;
  topic = codes "a/b";
  payload = codes "on";
  retain = false;
  expires_at = none;
  properties = none;
  pending_pub_rel = false;
}

abbrev staged : InboundQos2
staged = record {
  packet_id = 4;
  qos = 2;
  topic = codes "a/b";
  payload = codes "on";
  retain = false;
  received_at = 0;
  properties = none;
}

abbrev outbound : OutboundMsg
outbound = record {
  topic = codes "a/b";
  payload = codes "on";
  deliver_qos = 1;
  sub_ids = [];
  expires_at = none;
}

-- The sequence stands at the last id, which is in flight.
abbrev session : Session.Session
session = record {
  client_id = codes "alice";
  inflight = (65535, delivery) ∷ [];
  inbound_qos2 = [];
  packet_id_seq = 65535;
  topic_alias_max = 10;
  outbound_window = 2;
  outbound_unacked = 0;
  outbound_queue = [];
  topic_aliases = [];
}

next_packet_id_free_example :
    (lookup (next_packet_id session).1 session.inflight ≡ none)
    × IsPacketId (next_packet_id session).1
    × IsPacketId (next_packet_id session).0.packet_id_seq
    × ((next_packet_id session).0.inflight ≡ session.inflight)
next_packet_id_free_example =
    next_packet_id_free session 7 (omega arith) (omega arith) (unfold lookup in refl)

abbrev idle : Flow
idle = record { session = session; started = 0 }

-- Two deliveries start before either is counted.
abbrev both_started : Flow
both_started = start_delivery (start_delivery idle)

both_run : FlowRun 2 idle (count_delivery (count_delivery both_started))
both_run =
    then_step
      (then_step (then_step (then_step here (starts (omega arith))) (starts one_started))
        (counts two_started))
      (counts one_left)
  where
    one_started : (start_delivery idle).started < 2
    one_started = unfold start_delivery can_send_outbound in omega arith

    two_started : 0 < both_started.started
    two_started = unfold start_delivery can_send_outbound in omega arith

    one_left : 0 < (count_delivery both_started).started
    one_left = unfold start_delivery can_send_outbound count_delivery in omega arith

unacked-le-window_example :
    (count_delivery (count_delivery both_started)).session.outbound_unacked + 1 ≤ 2 + 2
unacked-le-window_example =
    unacked-le-window 2 idle (count_delivery (count_delivery both_started)) (omega arith)
      (omega arith) (omega arith) (omega arith) refl both_run

-- Three deliveries that start before any is counted exceed the window of two.
abbrev three_started : Flow
three_started = start_delivery (start_delivery (start_delivery idle))

three_exceed :
    (count_delivery (count_delivery (count_delivery three_started))).session.outbound_unacked ≡ 3
unfolding start_delivery count_delivery can_send_outbound inc_outbound_unacked
three_exceed = refl
