-- ===== src/Broker/QosEngine/Steps.antt =====
-- broker/qos_engine.go: acknowledgments, and `doRetry`.
use shark_mqtt.Prelude.{
  ℕ, ◌+◌, ◌-◌, Bool, true, false, ◌&&◌, Option, none, some, List, [], ◌∷◌, ◌++◌, Str, ltb, leb,
  length, is_some, ◌==◌, nat_eq, str_eq, if◌then◌else◌,
}
use shark_mqtt.Prelude.Map.{Map, lookup, delete}
use shark_mqtt.Broker.QosEngine.{
  InflightState, state_sent, state_acked, InflightMessage, QosError, max_retries_exceeded, Effect,
  pub_rel, pub_comp, republished, reported, gave_up, QosEngine, mark_acked, update_client,
  retransmit_permitted, client_inflight,
}

unfoldable pub report_error : QosEngine → Str → ℕ → Option QosError → List Effect
report_error q client id none = []
report_error q client id (some err) =
    if q.callbacks.has_on_error then reported client id err ∷ [] else []

-- `if sendPubRel != nil { if err := sendPubRel(...); err != nil { ... } }`
unfoldable pub call_pub_rel : QosEngine → Str → ℕ → List Effect
call_pub_rel q client id = elim q.callbacks.send_pub_rel [
  | none ↦ []
  | some send ↦ pub_rel client id ∷ report_error q client id (send client id)
]

unfoldable pub call_pub_comp : QosEngine → Str → ℕ → List Effect
call_pub_comp q client id = elim q.callbacks.send_pub_comp [
  | none ↦ []
  | some send ↦ pub_comp client id ∷ report_error q client id (send client id)
]

unfoldable pub call_republish : QosEngine → Str → InflightMessage → List Effect
call_republish q client msg = elim q.callbacks.republish [
  | none ↦ []
  | some send ↦ republished client msg ∷ report_error q client msg.packet_id (send client msg)
]

unfoldable pub ack_qos1 : Str → ℕ → QosEngine → QosEngine
ack_qos1 client id = update_client client (delete id)

unfoldable pub release_inflight : Str → ℕ → QosEngine → QosEngine
release_inflight client id = update_client client (delete id)

unfoldable pub ack_pub_comp : Str → ℕ → QosEngine → QosEngine
ack_pub_comp client id = update_client client (delete id)

-- A PUBREL is sent only for a tracked message.
unfoldable pub ack_pub_rec : Str → ℕ → QosEngine → QosEngine × List Effect
ack_pub_rec client id q =
    let found = is_some (lookup id (client_inflight client q)) in
    (update_client client (mark_acked id) q, if found then call_pub_rel q client id else [])

unfoldable pub ack_pub_rel : Str → ℕ → QosEngine → QosEngine × List Effect
unfolding ack_qos1
ack_pub_rel client id q = (ack_qos1 client id q, call_pub_comp q client id)

unfoldable pub remove_client : Str → QosEngine → QosEngine
remove_client client q = record q {
  inflight = delete client q.inflight;
  session_versions = delete client q.session_versions;
}

unfoldable pub inflight_count : Str → QosEngine → ℕ
inflight_count client q = length (client_inflight client q)

unfoldable pub get_inflight : Str → ℕ → QosEngine → Option InflightMessage
get_inflight client id q = lookup id (client_inflight client q)

-- What a retry round does with one message.
pub data Decision : Type 0 where
  wait give_up : Decision
  resend : InflightMessage → Decision

unfoldable pub decide : ℕ → ℕ → InflightMessage → Decision
decide now interval msg =
    if ltb (now - msg.sent_at) interval
    then wait
    else if leb msg.max_retries msg.retries
    then give_up
    else resend (record msg { retries = msg.retries + 1; sent_at = now })

-- The client's table after the round, the messages to send again and the packets given up.
pub record Round : Type 0 where
  pub table : Map ℕ InflightMessage
  pub to_retry : List InflightMessage
  pub to_report : List ℕ

abbrev pub add_decision : ℕ → InflightMessage → Decision → Round → Round
add_decision id msg wait r = record r { table = (id, msg) ∷ r.table }
add_decision id msg give_up r = record r { to_report = id ∷ r.to_report }
add_decision id msg (resend copy) r = record r {
  table = (id, copy) ∷ r.table;
  to_retry = copy ∷ r.to_retry;
}

unfoldable pub retry_table : ℕ → ℕ → Map ℕ InflightMessage → Round
retry_table now interval [] = record { table = []; to_retry = []; to_report = [] }
retry_table now interval ((id, msg) ∷ m) =
    add_decision id msg (decide now interval msg) (retry_table now interval m)

-- The first half of `doRetry`, under the lock: a client whose version forbids it is passed over.
abbrev pub client_round : ℕ → QosEngine → Str → Map ℕ InflightMessage → Round
client_round now q client m =
    if retransmit_permitted client q
    then retry_table now q.retry_interval m
    else record { table = m; to_retry = []; to_report = [] }

unfoldable pub retry_inflight :
    ℕ → QosEngine → Map Str (Map ℕ InflightMessage) → Map Str (Map ℕ InflightMessage)
retry_inflight now q [] = []
retry_inflight now q ((client, m) ∷ rest) =
    (client, (client_round now q client m).table) ∷ retry_inflight now q rest

-- The second half, after the lock is released.
unfoldable pub report_given_up : QosEngine → Str → List ℕ → List Effect
report_given_up q client [] = []
report_given_up q client (id ∷ ids) =
    ((if q.callbacks.has_on_give_up then gave_up client id ∷ [] else [])
      ++ report_error q client id (some max_retries_exceeded))
    ++ report_given_up q client ids

abbrev pub is_acked : InflightState → Bool
is_acked state_sent = false
is_acked state_acked = true

abbrev pub owes_pub_rel : InflightMessage → Bool
owes_pub_rel msg = msg.is_outbound && msg.qos == 2 && is_acked msg.state

unfoldable pub send_again : QosEngine → Str → List InflightMessage → List Effect
send_again q client [] = []
send_again q client (msg ∷ msgs) =
    (if owes_pub_rel msg then call_pub_rel q client msg.packet_id else call_republish q client msg)
    ++ send_again q client msgs

unfoldable pub reports : ℕ → QosEngine → Map Str (Map ℕ InflightMessage) → List Effect
reports now q [] = []
reports now q ((client, m) ∷ rest) =
    report_given_up q client (client_round now q client m).to_report ++ reports now q rest

unfoldable pub resends : ℕ → QosEngine → Map Str (Map ℕ InflightMessage) → List Effect
resends now q [] = []
resends now q ((client, m) ∷ rest) =
    send_again q client (client_round now q client m).to_retry ++ resends now q rest

unfoldable pub do_retry : ℕ → QosEngine → QosEngine × List Effect
do_retry now q = (
  record q { inflight = retry_inflight now q q.inflight },
  reports now q q.inflight ++ resends now q q.inflight,
)
