-- ===== src/Broker/QosEngine/Invariant.antt =====
-- Every operation of broker/qos_engine.go keeps the invariant of its tables.
use shark_mqtt.Prelude.{
  ℕ, ◌≤◌, ◌<◌, ◌≡◌, refl, Bool, false, ◌&&◌, Option, none, some, Str, ltb, leb, nat_eq, str_eq,
  str_beq, if◌then◌else◌, arith, Bool-cases, inl, inr, length,
}
use mathlib.Core.Path.{subst}
use shark_mqtt.Prelude.Map.{
  Map, lookup, insert, delete, lookup-insert, lookup-delete, length-insert,
}
use shark_mqtt.Broker.QosEngine.{
  InflightMessage, QosEngine, or_empty, client_inflight, track, mark_acked, update_client,
  retransmit_permitted,
}
use shark_mqtt.Broker.QosEngine.Steps.{
  client_round, do_retry, ack_qos1, release_inflight, ack_pub_comp, ack_pub_rec, ack_pub_rel,
  remove_client,
}
use shark_mqtt.Broker.QosEngine.Rounds.{lookup-retry_inflight}
use shark_mqtt.Broker.QosEngine.Bounds.{
  IsTable, IsEngine, empty-IsTable, insert-IsTable, delete-IsTable, mark_acked-IsTable,
  retry_table-IsTable,
}

-- A client's table after the table of one client has been written.
client_inflight-insert :
    (c d : Str) (t : Map ℕ InflightMessage) (m : Map Str (Map ℕ InflightMessage))
    → or_empty (lookup d (insert c t m)) ≡ (if str_beq c d then t else or_empty (lookup d m))
client_inflight-insert c d t m = ground (arith, lookup-insert c d t m)

write-IsTable :
    (max : ℕ) (c d : Str) (t : Map ℕ InflightMessage) (m : Map Str (Map ℕ InflightMessage))
    → IsTable max t
    → IsTable max (or_empty (lookup d m))
    → IsTable max (or_empty (lookup d (insert c t m)))
write-IsTable max c d t m ht hm = elim (Bool-cases (str_beq c d)) [
  | inl b ↦ rw (client_inflight-insert c d t m, b) ht
  | inr b ↦ rw (client_inflight-insert c d t m, b) hm
]

room :
    (max id : ℕ) (msg : InflightMessage) (m : Map ℕ InflightMessage)
    → (ltb 0 max && leb max (length m)) ≡ false
    → 0 < max
    → length (insert id msg m) ≤ max
room max id msg m b p = ground (arith, length-insert id msg m)

-- `track` keeps the invariant, also where it answers that the table is full.
pub track-IsEngine :
    (now id qos : ℕ) (c topic payload : Str) (retain outbound : Bool) (q : QosEngine)
    → IsEngine q
    → IsEngine (track now c id topic payload retain qos outbound q).0
unfolding track
track-IsEngine now id qos c topic payload retain outbound q h d =
    elim (Bool-cases (ltb 0 q.max_inflight && leb q.max_inflight (length (client_inflight c q)))) [
      | inl b ↦ rw b (write-IsTable q.max_inflight c d _ q.inflight (h c) (h d))
      | inr b ↦ rw b (
          write-IsTable q.max_inflight c d _ q.inflight
            (insert-IsTable q.max_inflight id _ (client_inflight c q) (h c) (omega arith)
              (λ p. room q.max_inflight id _ (client_inflight c q) b p))
            (h d))
    ]

update-IsEngine :
    (c : Str) (f : Map ℕ InflightMessage → Map ℕ InflightMessage) (q : QosEngine)
    → ((m : Map ℕ InflightMessage) → IsTable q.max_inflight m → IsTable q.max_inflight (f m))
    → IsEngine q
    → IsEngine (update_client c f q)
update-IsEngine c f q keep h d = go (lookup c q.inflight) refl
  where
    go :
        (o : Option (Map ℕ InflightMessage))
        → lookup c q.inflight ≡ o
        → (let r : QosEngine = elim o [
          | none ↦ q
          | some t ↦ record q { inflight = insert c (f t) q.inflight }
        ] in
            IsTable r.max_inflight (client_inflight d r))
    go none e = h d
    go (some t) e =
        write-IsTable q.max_inflight c d (f t) q.inflight
          (keep t (subst (λ o. IsTable q.max_inflight (or_empty o)) e (h c))) (h d)

-- A message leaves the table on each of the four acknowledgments that end an exchange.
pub ack-IsEngine :
    (c : Str) (id : ℕ) (q : QosEngine)
    → IsEngine q
    → IsEngine (ack_qos1 c id q)
      × IsEngine (release_inflight c id q)
      × IsEngine (ack_pub_comp c id q)
      × IsEngine (ack_pub_rel c id q).0
unfolding ack_qos1 release_inflight ack_pub_comp ack_pub_rel
ack-IsEngine c id q h =
    let ok = update-IsEngine c (delete id) q (delete-IsTable q.max_inflight id) h in
    (ok, ok, ok, ok)

pub ack_pub_rec-IsEngine :
    (c : Str) (id : ℕ) (q : QosEngine) → IsEngine q → IsEngine (ack_pub_rec c id q).0
unfolding ack_pub_rec
ack_pub_rec-IsEngine c id q h =
    update-IsEngine c (mark_acked id) q (mark_acked-IsTable q.max_inflight id) h

pub remove_client-IsEngine : (c : Str) (q : QosEngine) → IsEngine q → IsEngine (remove_client c q)
unfolding remove_client
remove_client-IsEngine c q h d = elim (Bool-cases (str_beq c d)) [
  | inl b ↦ rw (lookup-delete c d q.inflight, b) (empty-IsTable q.max_inflight)
  | inr b ↦ rw (lookup-delete c d q.inflight, b) (h d)
]

client_round-IsTable :
    (now : ℕ) (q : QosEngine) (c : Str) (m : Map ℕ InflightMessage)
    → IsTable q.max_inflight m
    → IsTable q.max_inflight (client_round now q c m).table
client_round-IsTable now q c m h = elim (Bool-cases (retransmit_permitted c q)) [
  | inl b ↦ rw b (retry_table-IsTable q.max_inflight now q.retry_interval m h)
  | inr b ↦ rw b h
]

pub do_retry-IsEngine : (now : ℕ) (q : QosEngine) → IsEngine q → IsEngine (do_retry now q).0
unfolding do_retry
do_retry-IsEngine now q h d =
    rw (lookup-retry_inflight d now q q.inflight) (go (lookup d q.inflight) (h d))
  where
    go :
        (o : Option (Map ℕ InflightMessage))
        → IsTable q.max_inflight (or_empty o)
        → IsTable q.max_inflight (
            or_empty (
              let r : Option (Map ℕ InflightMessage) = elim o [
                | none ↦ none
                | some t ↦ some ((client_round now q d t).table)
              ] in
              r))
    go none k = k
    go (some t) k = client_round-IsTable now q d t k
