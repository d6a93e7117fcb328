-- ===== src/Broker/QosEngine/Reach.antt =====
-- The runs of broker/qos_engine.go: any sequence of its operations, in any order.
use shark_mqtt.Prelude.{
  ℕ, ◌≤◌, ◌<◌, ◌≡◌, ◌∙◌, refl, Bool, ◌&&◌, Option, none, some, [], Str, nat_eq, str_eq, str_beq,
  str_beq_iff, nat_beq, nat_beq_iff, if◌then◌else◌, arith, is_some,
}
use shark_mqtt.Prelude.Map.{Map, lookup, insert, delete, lookup-insert, lookup-delete}
use shark_mqtt.Broker.QosEngine.{
  InflightMessage, state_acked, QosEngine, new_qos_engine, client_inflight, track, mark_acked,
  update_client, set_client_version, Callbacks,
}
use shark_mqtt.Broker.QosEngine.Steps.{
  call_pub_rel, do_retry, ack_qos1, release_inflight, ack_pub_comp, ack_pub_rec, ack_pub_rel,
  remove_client, get_inflight, inflight_count,
}
use shark_mqtt.Broker.QosEngine.Bounds.{IsEngine, empty-IsTable}
use shark_mqtt.Broker.QosEngine.Invariant.{
  track-IsEngine, ack-IsEngine, ack_pub_rec-IsEngine, remove_client-IsEngine, do_retry-IsEngine,
}

-- One operation, whichever the broker calls next. The outbound and the inbound `Track` functions
-- are `track` at their flags.
pub data Step (q : QosEngine) : QosEngine → Type 0 where
  tracked :
      (now id qos : ℕ) (c topic payload : Str) (retain outbound : Bool)
      → Step q (track now c id topic payload retain qos outbound q).0
  acked : (c : Str) (id : ℕ) → Step q (ack_qos1 c id q)
  released : (c : Str) (id : ℕ) → Step q (release_inflight c id q)
  completed : (c : Str) (id : ℕ) → Step q (ack_pub_comp c id q)
  received : (c : Str) (id : ℕ) → Step q (ack_pub_rec c id q).0
  finished : (c : Str) (id : ℕ) → Step q (ack_pub_rel c id q).0
  removed : (c : Str) → Step q (remove_client c q)
  retried : (now : ℕ) → Step q (do_retry now q).0
  version_set : (c : Str) (v : ℕ) → Step q (set_client_version c v q)
  callbacks_set : (k : Callbacks) → Step q (record q { callbacks = k })

pub data Reach (max interval retries : ℕ) : QosEngine → Type 0 where
  started : Reach max interval retries (new_qos_engine max interval retries)
  stepped :
      {q r : QosEngine} → Reach max interval retries q → Step q r → Reach max interval retries r

Step-IsEngine : {q r : QosEngine} → Step q r → IsEngine q → IsEngine r
unfolding set_client_version
Step-IsEngine {q} (tracked now id qos c topic payload retain outbound) h =
    track-IsEngine now id qos c topic payload retain outbound q h
Step-IsEngine {q} (acked c id) h = (ack-IsEngine c id q h).0
Step-IsEngine {q} (released c id) h = (ack-IsEngine c id q h).1
Step-IsEngine {q} (completed c id) h = (ack-IsEngine c id q h).2
Step-IsEngine {q} (received c id) h = ack_pub_rec-IsEngine c id q h
Step-IsEngine {q} (finished c id) h = (ack-IsEngine c id q h).3
Step-IsEngine {q} (removed c) h = remove_client-IsEngine c q h
Step-IsEngine {q} (retried now) h = do_retry-IsEngine now q h
Step-IsEngine (version_set c v) h = h
Step-IsEngine (callbacks_set k) h = h

-- The invariant holds in every state that the engine can reach.
pub Reach-IsEngine :
    {max interval retries : ℕ} {q : QosEngine} → Reach max interval retries q → IsEngine q
unfolding new_qos_engine lookup
Reach-IsEngine {max} started = λ c. empty-IsTable max
Reach-IsEngine (stepped r s) = Step-IsEngine s (Reach-IsEngine r)

update-max_inflight :
    (c : Str) (f : Map ℕ InflightMessage → Map ℕ InflightMessage) (q : QosEngine)
    → (update_client c f q).max_inflight ≡ q.max_inflight
update-max_inflight c f q = ground arith

Step-max_inflight : {q r : QosEngine} → Step q r → r.max_inflight ≡ q.max_inflight
unfolding track ack_qos1 release_inflight ack_pub_comp ack_pub_rec ack_pub_rel remove_client
    do_retry set_client_version
Step-max_inflight {q} (tracked now id qos c topic payload retain outbound) = ground arith
Step-max_inflight {q} (acked c id) = update-max_inflight c (delete id) q
Step-max_inflight {q} (released c id) = update-max_inflight c (delete id) q
Step-max_inflight {q} (completed c id) = update-max_inflight c (delete id) q
Step-max_inflight {q} (received c id) = update-max_inflight c (mark_acked id) q
Step-max_inflight {q} (finished c id) = update-max_inflight c (delete id) q
Step-max_inflight (removed c) = refl
Step-max_inflight (retried now) = refl
Step-max_inflight (version_set c v) = refl
Step-max_inflight (callbacks_set k) = refl

Reach-max_inflight :
    {max interval retries : ℕ} {q : QosEngine} → Reach max interval retries q → q.max_inflight ≡ max
unfolding new_qos_engine
Reach-max_inflight started = refl
Reach-max_inflight (stepped r s) = Step-max_inflight s ∙ Reach-max_inflight r

-- After any operations a client has at most `max` messages in flight, where `max` is not 0 (no
-- limit), and no message in flight has been sent again more often than it may.
pub inflight_bounded :
    (max interval retries : ℕ) (q : QosEngine) (c : Str)
    → Reach max interval retries q
    → 0 < max
    → (inflight_count c q ≤ max)
      × ((id : ℕ) (msg : InflightMessage)
          → get_inflight c id q ≡ some msg
          → msg.retries ≤ msg.max_retries)
unfolding inflight_count get_inflight
inflight_bounded max interval retries q c r p =
    let t = Reach-IsEngine r c in
    (rw (Reach-max_inflight r) at (t.bounded (rw (Reach-max_inflight r) p)), t.retries_bounded)

get_inflight-update :
    (c d : Str) (id : ℕ) (f : Map ℕ InflightMessage → Map ℕ InflightMessage) (q : QosEngine)
    → f [] ≡ []
    → client_inflight d (update_client c f q)
      ≡ (if str_beq c d then f (client_inflight d q) else client_inflight d q)
get_inflight-update c d id f q e =
    ground (arith, str_beq_iff c d, lookup-insert c d (f (client_inflight c q)) q.inflight)

-- PUBACK, PUBCOMP and the release of a refused delivery end the tracking of that packet of that
-- client, and of no other.
pub get_inflight-ack :
    (c d : Str) (id j : ℕ) (q : QosEngine)
    → (get_inflight d j (ack_qos1 c id q)
        ≡ (if str_beq c d && nat_beq id j then none else get_inflight d j q))
      × (ack_pub_comp c id q ≡ ack_qos1 c id q)
      × (release_inflight c id q ≡ ack_qos1 c id q)
unfolding get_inflight ack_qos1 ack_pub_comp release_inflight
get_inflight-ack c d id j q = (
  rw (get_inflight-update c d id (delete id) q (unfold delete in refl))
      (ground (arith, lookup-delete id j (client_inflight d q))),
  refl,
  refl,
)

lookup-mark_acked :
    (id j : ℕ) (m : Map ℕ InflightMessage)
    → lookup j (mark_acked id m) ≡ (
        if nat_beq id j
        then elim (lookup id m) [
          | none ↦ none
          | some msg ↦ some (record msg { state = state_acked })
        ]
        else lookup j m)
lookup-mark_acked id j m = go (lookup id m) refl
  where
    go :
        (o : Option InflightMessage)
        → lookup id m ≡ o
        → lookup j (
            let r : Map ℕ InflightMessage = elim o [
              | none ↦ m
              | some msg ↦ insert id (record msg { state = state_acked }) m
            ] in
            r)
          ≡ (if nat_beq id j
              then elim o [ none ↦ none | some msg ↦ some (record msg { state = state_acked }) ]
              else lookup j m)
    go none e = ground (arith, nat_beq_iff id j)
    go (some msg) e = lookup-insert id j (record msg { state = state_acked }) m

-- A PUBREC for a tracked message marks exactly that message and sends the PUBREL; one for an
-- unknown packet changes no message and sends nothing.
pub ack_pub_rec_lem :
    (c d : Str) (id j : ℕ) (q : QosEngine)
    → (get_inflight d j (ack_pub_rec c id q).0 ≡ (
        if str_beq c d && nat_beq id j
        then elim (get_inflight c id q) [
          | none ↦ none
          | some msg ↦ some (record msg { state = state_acked })
        ]
        else get_inflight d j q))
      × ((ack_pub_rec c id q).1
          ≡ (if is_some (get_inflight c id q) then call_pub_rel q c id else []))
unfolding get_inflight ack_pub_rec
ack_pub_rec_lem c d id j q = (
  rw (get_inflight-update c d id (mark_acked id) q (unfold lookup in refl))
      (ground (arith, lookup-mark_acked id j (client_inflight d q), str_beq_iff c d)),
  refl,
)
