-- ===== src/Broker/Session/Handshake.antt =====
-- The tables of handshakes in broker/session.go: deliveries in flight, staged QoS 2 publishes and
-- topic aliases.
use shark_mqtt.Prelude.{
  ℕ, ◌≤◌, ◌<◌, ◌≡◌, refl, Bool, true, false, not, ◌&&◌, Option, none, some, Str, is_some, ◌==◌,
  nat_eq, nat_beq, nat_beq_iff, if◌then◌else◌, arith, ltb, leb, length,
}
use shark_mqtt.Prelude.Map.{lookup, insert, lookup-insert, lookup-delete, length-insert}
use shark_mqtt.Broker.Session.{
  InflightMsg, InboundQos2, Session, remove_inflight, get_inflight, mark_inflight_pub_rel,
  add_inbound_qos2, has_inbound_qos2, take_inbound_qos2, register_topic_alias, resolve_topic_alias,
}

-- A staged publish is taken once: the take returns it and removes it, so a second take of the same
-- id returns nothing; what is staged under other ids stays.
pub take_once :
    (id j : ℕ) (s : Session)
    → ((take_inbound_qos2 id s).1 ≡ lookup id s.inbound_qos2)
      × ((take_inbound_qos2 id (take_inbound_qos2 id s).0).1 ≡ none)
      × (has_inbound_qos2 j (take_inbound_qos2 id s).0
          ≡ (if nat_beq id j then false else has_inbound_qos2 j s))
unfolding take_inbound_qos2 has_inbound_qos2
take_once id j s = ground (
  arith,
  lookup-delete id id s.inbound_qos2,
  lookup-delete id j s.inbound_qos2,
  nat_beq_iff id j,
  nat_beq_iff id id,
)

-- With a budget, staging succeeds exactly below it, and what was staged is what is taken.
pub add-take :
    (msg : InboundQos2) (max : ℕ) (s : Session)
    → 0 < max
    → length s.inbound_qos2 < max
    → ((add_inbound_qos2 msg max s).1 ≡ true)
      × ((take_inbound_qos2 msg.packet_id (add_inbound_qos2 msg max s).0).1 ≡ some msg)
      × (length (add_inbound_qos2 msg max s).0.inbound_qos2 ≤ max)
unfolding add_inbound_qos2 take_inbound_qos2
add-take msg max s p h = ground (
  arith,
  lookup-insert msg.packet_id msg.packet_id msg s.inbound_qos2,
  length-insert msg.packet_id msg s.inbound_qos2,
  nat_beq_iff msg.packet_id msg.packet_id,
)

-- Where a budget is set, a full one refuses, and nothing changes.
pub add_full :
    (msg : InboundQos2) (max : ℕ) (s : Session)
    → 0 < max
    → max ≤ length s.inbound_qos2
    → add_inbound_qos2 msg max s ≡ (s, false)
unfolding add_inbound_qos2
add_full msg max s p h = ground arith

-- A PUBREC marks an outbound QoS 2 delivery and nothing else: for a QoS 1 delivery or an unknown
-- packet the session stays as it was.
pub get_inflight-mark :
    (id j : ℕ) (s : Session)
    → get_inflight j (mark_inflight_pub_rel id s).0 ≡ elim (get_inflight j s) [
      | none ↦ none
      | some msg ↦
          some (
            if nat_beq id j && nat_beq msg.qos 2
            then record msg { pending_pub_rel = true }
            else msg)
    ]
unfolding get_inflight mark_inflight_pub_rel
get_inflight-mark id j s = go (lookup id s.inflight) refl
  where
    go :
        (o : Option InflightMsg)
        → lookup id s.inflight ≡ o
        → (let r : Session × Bool = elim o [
          | none ↦ (s, false)
          | some msg ↦ if not (msg.qos == 2) then (s, false) else (
            record s { inflight = insert id (record msg { pending_pub_rel = true }) s.inflight },
            true,
          )
        ] in
            lookup j r.0.inflight ≡ elim (lookup j s.inflight) [
              | none ↦ none
              | some msg ↦ some (
                  if nat_beq id j && nat_beq msg.qos 2
                  then record msg { pending_pub_rel = true }
                  else msg)
            ])
    go none e = ground (arith, nat_beq_iff id j)
    go (some msg) e = ground (
      arith,
      nat_beq_iff id j,
      lookup-insert id j (record msg { pending_pub_rel = true }) s.inflight,
    )

-- An acknowledgment counts once: `RemoveInflight` answers true exactly if the id was in flight, and
-- afterwards it is not; the other ids stay.
pub remove_inflight_lem :
    (id j : ℕ) (s : Session)
    → ((remove_inflight id s).1 ≡ is_some (get_inflight id s))
      × ((remove_inflight id (remove_inflight id s).0).1 ≡ false)
      × (get_inflight j (remove_inflight id s).0
          ≡ (if nat_beq id j then none else get_inflight j s))
unfolding remove_inflight get_inflight
remove_inflight_lem id j s = ground (
  arith,
  lookup-delete id id s.inflight,
  lookup-delete id j s.inflight,
  nat_beq_iff id j,
  nat_beq_iff id id,
)

-- An alias is accepted exactly up to the maximum that the server advertised, where 0 accepts none;
-- an accepted alias resolves to its topic, and every other alias resolves as before.
pub resolve-register :
    (alias j : ℕ) (topic : Str) (s : Session)
    → ((register_topic_alias alias topic s).1
        ≡ (ltb 0 s.topic_alias_max && leb alias s.topic_alias_max))
      × (resolve_topic_alias j (register_topic_alias alias topic s).0 ≡ (
          if (ltb 0 s.topic_alias_max && leb alias s.topic_alias_max) && nat_beq alias j
          then some topic
          else resolve_topic_alias j s))
unfolding register_topic_alias resolve_topic_alias
resolve-register alias j topic s = ground (arith, lookup-insert alias j topic s.topic_aliases)
