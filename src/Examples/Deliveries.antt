-- ===== src/Examples/Deliveries.antt =====
-- The QoS engine at concrete packets.
use shark_mqtt.Prelude.{
  ℕ, ◌-◌, ◌<◌, ◌≤◌, ◌≡◌, refl, Option, true, false, some, [], ◌∷◌, Str, codes, arith, All, nat_eq,
  str_eq,
}
use shark_mqtt.Prelude.Map.{lookup, insert, NodupKeys}
use shark_mqtt.Protocol.Spec.{spec_of, spec_v31, spec_v311, spec_v50}
use shark_mqtt.Broker.QosEngine
use shark_mqtt.Broker.QosEngine.{
  InflightMessage, QosError, pub_rel, state_sent, state_acked, new_qos_engine, set_client_version,
  track, client_inflight, retransmit_permitted,
}
use shark_mqtt.Broker.QosEngine.Steps.{ack_pub_rec, do_retry, get_inflight, inflight_count}
use shark_mqtt.Broker.QosEngine.Resent.{NotPublished, Among, IsKeyed, do_retry-IsReceived}
use shark_mqtt.Broker.QosEngine.Rounds.{do_retry_permitted}
use shark_mqtt.Broker.QosEngine.Reach.{Reach, started, stepped, tracked, inflight_bounded}

abbrev alice : Str
alice = codes "alice"

abbrev fresh : QosEngine.QosEngine
fresh = new_qos_engine 1 10 3

-- One QoS 2 delivery, at most one in flight, a retry interval of 10 and three retries.
abbrev one_delivery : QosEngine.QosEngine
one_delivery = (track 5 alice 7 (codes "a/b") (codes "on") false 2 true fresh).0

one_delivery-Reach : Reach 1 10 3 one_delivery
one_delivery-Reach = stepped started (tracked 5 7 2 alice (codes "a/b") (codes "on") false true)

inflight_bounded_example :
    (inflight_count alice one_delivery ≤ 1)
    × ((id : ℕ) (msg : InflightMessage)
        → get_inflight alice id one_delivery ≡ some msg
        → msg.retries ≤ msg.max_retries)
inflight_bounded_example =
    inflight_bounded 1 10 3 one_delivery alice one_delivery-Reach (omega arith)

-- The delivery after its PUBREC.
abbrev received_delivery : InflightMessage
received_delivery = record {
  packet_id = 7;
  client_id = alice;
  state = state_acked;
  sent_at = 5;
  retries = 0;
  max_retries = 3;
  topic = codes "a/b";
  payload = codes "on";
  qos = 2;
  retain = false;
  is_outbound = true;
}

abbrev after_pub_rec : QosEngine.QosEngine
after_pub_rec = (ack_pub_rec alice 7 one_delivery).0

after_pub_rec_table : lookup alice after_pub_rec.inflight ≡ some ((7, received_delivery) ∷ [])
unfolding ack_pub_rec track new_qos_engine lookup insert
after_pub_rec_table = refl

after_pub_rec_once : NodupKeys after_pub_rec.inflight
unfolding ack_pub_rec track new_qos_engine lookup insert
after_pub_rec_once = (refl, tt)

received_table : IsKeyed ((7, received_delivery) ∷ [])
unfolding lookup
received_table = record { once = (refl, tt); own = λ id msg e. ground (arith, e) }

do_retry-IsReceived_example :
    All (NotPublished alice 7) (do_retry 20 after_pub_rec).1
    × ((send : Str → ℕ → Option QosError)
        → after_pub_rec.callbacks.send_pub_rel ≡ some send
        → retransmit_permitted alice after_pub_rec ≡ true
        → after_pub_rec.retry_interval ≤ 20 - received_delivery.sent_at
        → received_delivery.retries < received_delivery.max_retries
        → Among (pub_rel alice 7) (do_retry 20 after_pub_rec).1)
do_retry-IsReceived_example =
    do_retry-IsReceived alice 7 20 after_pub_rec ((7, received_delivery) ∷ []) received_delivery
      after_pub_rec_once after_pub_rec_table received_table (unfold lookup in refl)
      (record { outbound = refl; exactly_once = refl; received = refl })

abbrev version5 : QosEngine.QosEngine
version5 = set_client_version alice 5 one_delivery

abbrev message : InflightMessage
message = record {
  packet_id = 7;
  client_id = alice;
  state = state_sent;
  sent_at = 5;
  retries = 0;
  max_retries = 3;
  topic = codes "a/b";
  payload = codes "on";
  qos = 2;
  retain = false;
  is_outbound = true;
}

permitted : retransmit_permitted alice one_delivery ≡ true
unfolding retransmit_permitted new_qos_engine track lookup insert spec_of spec_v31 spec_v311
    spec_v50
permitted = refl

stored : lookup alice one_delivery.inflight ≡ some ((7, message) ∷ [])
unfolding new_qos_engine track lookup insert
stored = refl

do_retry_permitted_example :
    lookup 7 (client_inflight alice (do_retry 20 one_delivery).0)
    ≡ some (record message { retries = 1; sent_at = 20 })
do_retry_permitted_example =
    unfold new_qos_engine track lookup insert in
    do_retry_permitted alice 7 20 one_delivery ((7, message) ∷ []) permitted stored (refl, tt)
