-- ===== src/Broker/QosEngine/Rounds.antt =====
-- What a retry round of broker/qos_engine.go does to the table, message by message.
use shark_mqtt.Prelude.{
  ℕ, ◌+◌, ◌-◌, ◌≡◌, ◌∙◌, refl, true, false, Option, none, some, [], ◌∷◌, Str, ltb, leb, ◌==◌,
  nat_eq, str_eq, str_beq_iff, nat_beq_iff, if◌then◌else◌, arith, All, Bool-cases, inl, inr,
}
use shark_mqtt.Prelude.Map.{Map, lookup, NodupKeys}
use shark_mqtt.Protocol.Spec.{spec_of}
use shark_mqtt.Broker.QosEngine.{InflightMessage, QosEngine, client_inflight, retransmit_permitted}
use shark_mqtt.Broker.QosEngine.Steps.{
  Decision, wait, give_up, resend, decide, Round, add_decision, retry_table, client_round,
  retry_inflight, do_retry,
}
use shark_mqtt.Broker.QosEngine.Retry.{Spares, All-append, reports-Spares, resends-Spares}

pub lookup-retry_inflight :
    (c : Str) (now : ℕ) (q : QosEngine) (m : Map Str (Map ℕ InflightMessage))
    → lookup c (retry_inflight now q m)
      ≡ elim (lookup c m) [ none ↦ none | some t ↦ some ((client_round now q c t).table) ]
unfolding lookup retry_inflight
lookup-retry_inflight c now q [] = refl
lookup-retry_inflight c now q ((d, t) ∷ m) = elim (Bool-cases (d == c)) [
  | inl b ↦ rw b (rw ((str_beq_iff d c).0 b))
  | inr b ↦ rw b (lookup-retry_inflight c now q m)
]

off_unchanged :
    (c : Str) (now : ℕ) (q : QosEngine)
    → retransmit_permitted c q ≡ false
    → lookup c (do_retry now q).0.inflight ≡ lookup c q.inflight
unfolding do_retry
off_unchanged c now q off = lookup-retry_inflight c now q q.inflight ∙ go (lookup c q.inflight)
  where
    go :
        (o : Option (Map ℕ InflightMessage))
        → ◌≡◌ {A = Option (Map ℕ InflightMessage)}
            (elim o [ none ↦ none | some t ↦ some ((client_round now q c t).table) ])
            o
    go none = refl
    go (some t) = rw off

off_version5 :
    (c : Str) (q : QosEngine)
    → lookup c q.session_versions ≡ some 5
    → retransmit_permitted c q ≡ false
unfolding retransmit_permitted spec_of
off_version5 c q v = rw (v, retransmit_permitted)

-- A retry round leaves an MQTT 5.0 session's table as it is, sends nothing to it and reports
-- nothing of it.
pub do_retry_version5 :
    (c : Str) (now : ℕ) (q : QosEngine)
    → lookup c q.session_versions ≡ some 5
    → (lookup c (do_retry now q).0.inflight ≡ lookup c q.inflight)
      × All (Spares c) (do_retry now q).1
do_retry_version5 c now q v =
    let off = off_version5 c q v in
    (
      off_unchanged c now q off,
      unfold do_retry in
          All-append (Spares c) _ _ (reports-Spares now q c off q.inflight)
            (resends-Spares now q c off q.inflight),
    )

-- The message of an entry after a round.
abbrev pub after : InflightMessage → Decision → Option InflightMessage
after msg wait = some msg
after msg give_up = none
after msg (resend copy) = some copy

lookup-add_decision :
    (id j : ℕ) (msg : InflightMessage) (d : Decision) (r : Round)
    → lookup id r.table ≡ none
    → lookup j (add_decision id msg d r).table ≡ (if id == j then after msg d else lookup j r.table)
unfolding lookup
lookup-add_decision id j msg wait r h = refl
lookup-add_decision id j msg (resend copy) r h = refl
lookup-add_decision id j msg give_up r h = ground (arith, nat_beq_iff id j)

pub lookup-retry_table :
    (j now interval : ℕ) (m : Map ℕ InflightMessage)
    → NodupKeys m
    → lookup j (retry_table now interval m).table
      ≡ elim (lookup j m) [ none ↦ none | some msg ↦ after msg (decide now interval msg) ]
unfolding lookup retry_table
lookup-retry_table j now interval [] h = refl
lookup-retry_table j now interval ((id, msg) ∷ m) h =
    lookup-add_decision id j msg (decide now interval msg) (retry_table now interval m)
      (lookup-retry_table id now interval m h.1 ∙ rw h.0)
    ∙ elim (Bool-cases (id == j)) [
      | inl b ↦ rw b
      | inr b ↦ rw b (lookup-retry_table j now interval m h.1)
    ]

-- For a client whose version permits it and whose table has each packet id once, a round keeps a
-- message that is younger than the retry interval, drops one that has used up its retries, and counts
-- and stamps any other.
pub do_retry_permitted :
    (c : Str) (id now : ℕ) (q : QosEngine) (t : Map ℕ InflightMessage)
    → retransmit_permitted c q ≡ true
    → lookup c q.inflight ≡ some t
    → NodupKeys t
    → lookup id (client_inflight c (do_retry now q).0) ≡ elim (lookup id t) [
      | none ↦ none
      | some msg ↦
          if ltb (now - msg.sent_at) q.retry_interval
          then some msg
          else if leb msg.max_retries msg.retries
          then none
          else some (record msg { retries = msg.retries + 1; sent_at = now })
    ]
unfolding do_retry
do_retry_permitted c id now q t on e h =
    rw (lookup-retry_inflight c now q q.inflight)
      (rw (e, on) (lookup-retry_table id now q.retry_interval t h ∙ go (lookup id t)))
  where
    one :
        (msg : InflightMessage)
        → after msg (decide now q.retry_interval msg) ≡ (
            if ltb (now - msg.sent_at) q.retry_interval
            then some msg
            else if leb msg.max_retries msg.retries
            then none
            else some (record msg { retries = msg.retries + 1; sent_at = now }))
    one msg = unfold decide in ground arith

    go :
        (o : Option InflightMessage)
        → ◌≡◌ {A = Option InflightMessage}
            (elim o [ none ↦ none | some msg ↦ after msg (decide now q.retry_interval msg) ])
            (elim o [
              | none ↦ none
              | some msg ↦
                  if ltb (now - msg.sent_at) q.retry_interval
                  then some msg
                  else if leb msg.max_retries msg.retries
                  then none
                  else some (record msg { retries = msg.retries + 1; sent_at = now })
            ])
    go none = refl
    go (some msg) = one msg
