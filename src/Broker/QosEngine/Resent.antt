-- ===== src/Broker/QosEngine/Resent.antt =====
-- What a retry round of broker/qos_engine.go sends for an outbound QoS 2 message whose PUBREC has come.
use shark_mqtt.Prelude.{
  ℕ, ◌+◌, ◌-◌, ◌≤◌, ◌<◌, ◌≡◌, ◌≢◌, ◌⊎◌, ◌∙◌, refl, sym, ap, true, false, Option, some, List, [],
  ◌∷◌, ◌++◌, Str, ltb, leb, ◌==◌, nat_eq, str_eq, str_beq_iff, nat_beq_iff, arith, All, Bool-cases,
  inl, inr, beq_refl, none-ne-some, some-eq-some,
}
use mathlib.Core.Path.{subst}
use shark_mqtt.Prelude.Map.{Map, lookup, NodupKeys}
use shark_mqtt.Broker.QosEngine.{
  InflightMessage, state_acked, QosError, Effect, pub_rel, republished, QosEngine,
  retransmit_permitted,
}
use shark_mqtt.Broker.QosEngine.Steps.{
  Decision, wait, give_up, resend, decide, add_decision, call_pub_rel, retry_table, client_round,
  owes_pub_rel, send_again, reports, resends, do_retry,
}
use shark_mqtt.Broker.QosEngine.Retry.{
  All-append, report_given_up-All, send_again-All, Sendable, everywhere,
}

-- The PUBREC of an outbound QoS 2 message has come, and its PUBCOMP has not.
pub record IsReceived (msg : InflightMessage) : Type 0 where
  pub outbound : msg.is_outbound ≡ true
  pub exactly_once : msg.qos ≡ 2
  pub received : msg.state ≡ state_acked

IsReceived-owes : (msg : InflightMessage) → IsReceived msg → owes_pub_rel msg ≡ true
IsReceived-owes msg h = rw (h.outbound, h.exactly_once, h.received) refl

-- The effect is not the PUBLISH of a packet to a client.
abbrev pub NotPublished : Str → ℕ → Effect → Type 0
NotPublished c id (republished d msg) = d ≡ c → msg.packet_id ≢ id
NotPublished c id _ = Unit

abbrev pub Among : {A : Type 0} → A → List A → Type 0
Among x [] = ⊥
Among x (y ∷ ys) = (x ≡ y) ⊎ Among x ys

-- A table with each packet id once, and each message under its own.
pub record IsKeyed (t : Map ℕ InflightMessage) : Type 0 where
  pub once : NodupKeys t
  pub own : (id : ℕ) (msg : InflightMessage) → lookup id t ≡ some msg → msg.packet_id ≡ id

-- The messages of the id `id` are waiting for their PUBCOMP.
abbrev Owing : ℕ → InflightMessage → Type 0
Owing id msg = msg.packet_id ≡ id → owes_pub_rel msg ≡ true

entries-All :
    (P : InflightMessage → Type 0) (t : Map ℕ InflightMessage)
    → NodupKeys t
    → ((id : ℕ) (msg : InflightMessage) → lookup id t ≡ some msg → P msg)
    → All (λ e. P e.1) t
unfolding lookup
entries-All P [] h k = tt
entries-All P ((id, msg) ∷ t) h k = (
  k id msg (rw (beq_refl id) refl),
  entries-All P t h.1 (λ j m e. k j m (ground (arith, e, h.0, nat_beq_iff id j))),
)

client_All :
    (Q : Map ℕ InflightMessage → Type 0) (c : Str) (m : Map Str (Map ℕ InflightMessage))
    → NodupKeys m
    → ((t : Map ℕ InflightMessage) → lookup c m ≡ some t → Q t)
    → All (λ e. e.0 ≡ c → Q e.1) m
unfolding lookup
client_All Q c [] h k = tt
client_All Q c ((d, t) ∷ m) h k = (
  λ same. k t (rw ((str_beq_iff d c).1 same) refl),
  client_All Q c m h.1 (λ u e. k u (ground (arith, e, h.0, str_beq_iff d c))),
)

abbrev WhenResent : (InflightMessage → Type 0) → Decision → Type 0
WhenResent P wait = Unit
WhenResent P give_up = Unit
WhenResent P (resend copy) = P copy

decide-Owing :
    (id now interval : ℕ) (msg : InflightMessage)
    → Owing id msg
    → WhenResent (Owing id) (decide now interval msg)
unfolding decide
decide-Owing id now interval msg h = elim (Bool-cases (ltb (now - msg.sent_at) interval)) [
  | inl b ↦ rw b tt
  | inr b ↦ elim (Bool-cases (leb msg.max_retries msg.retries)) [
    | inl d ↦ rw b (rw d tt)
    | inr d ↦ rw b (rw d h)
  ]
]

to_retry-Owing :
    (id now interval : ℕ) (t : Map ℕ InflightMessage)
    → All (λ e. Owing id e.1) t
    → All (Owing id) (retry_table now interval t).to_retry
unfolding retry_table
to_retry-Owing id now interval [] h = tt
to_retry-Owing id now interval ((j, msg) ∷ t) h =
    go (decide now interval msg) (decide-Owing id now interval msg h.0)
      (to_retry-Owing id now interval t h.1)
  where
    go :
        (d : Decision)
        → WhenResent (Owing id) d
        → All (Owing id) (retry_table now interval t).to_retry
        → All (Owing id) (add_decision j msg d (retry_table now interval t)).to_retry
    go wait e k = k
    go give_up e k = k
    go (resend copy) e k = (e, k)

-- A message that a round sends again is among those of the round.
to_retry-Among :
    (id now interval : ℕ) (msg copy : InflightMessage) (t : Map ℕ InflightMessage)
    → lookup id t ≡ some msg
    → decide now interval msg ≡ resend copy
    → Among copy (retry_table now interval t).to_retry
unfolding lookup retry_table
to_retry-Among id now interval msg copy [] e d = absurd (none-ne-some e)
to_retry-Among id now interval msg copy ((j, other) ∷ t) e d = elim (Bool-cases (j == id)) [
  | inl b ↦
      let same : other ≡ msg = some-eq-some (rw b at e) in
      rw (ap (decide now interval) same ∙ d) (inl refl)
  | inr b ↦
      let later = to_retry-Among id now interval msg copy t (rw b at e) d in
      go (decide now interval other) later
]
  where
    go :
        (r : Decision)
        → Among copy (retry_table now interval t).to_retry
        → Among copy (add_decision j other r (retry_table now interval t)).to_retry
    go wait k = k
    go give_up k = k
    go (resend c) k = inr k

Among-front : {A : Type 0} (x : A) (xs ys : List A) → Among x xs → Among x (xs ++ ys)
Among-front x [] ys k = absurd k
Among-front x (y ∷ xs) ys (inl e) = inl e
Among-front x (y ∷ xs) ys (inr k) = inr (Among-front x xs ys k)

Among-back : {A : Type 0} (x : A) (xs ys : List A) → Among x ys → Among x (xs ++ ys)
Among-back x [] ys k = k
Among-back x (y ∷ xs) ys k = inr (Among-back x xs ys k)

send_again-Among :
    (q : QosEngine) (c : Str) (send : Str → ℕ → Option QosError) (msg : InflightMessage)
    (ms : List InflightMessage)
    → q.callbacks.send_pub_rel ≡ some send
    → owes_pub_rel msg ≡ true
    → Among msg ms
    → Among (pub_rel c msg.packet_id) (send_again q c ms)
unfolding send_again call_pub_rel
send_again-Among q c send msg [] set owes k = absurd k
send_again-Among q c send msg (m ∷ ms) set owes (inl e) =
    let first : owes_pub_rel m ≡ true = ap owes_pub_rel (sym e) ∙ owes in
    Among-front (pub_rel c msg.packet_id) _ (send_again q c ms)
      (rw first (rw set (inl (ap (λ x. pub_rel c x.packet_id) e))))
send_again-Among q c send msg (m ∷ ms) set owes (inr k) =
    Among-back (pub_rel c msg.packet_id) _ (send_again q c ms)
      (send_again-Among q c send msg ms set owes k)

resends-Among :
    (e : Effect) (now : ℕ) (q : QosEngine) (c : Str) (t : Map ℕ InflightMessage)
    (m : Map Str (Map ℕ InflightMessage))
    → lookup c m ≡ some t
    → Among e (send_again q c (client_round now q c t).to_retry)
    → Among e (resends now q m)
unfolding lookup resends
resends-Among e now q c t [] f k = absurd (none-ne-some f)
resends-Among e now q c t ((d, u) ∷ m) f k = elim (Bool-cases (d == c)) [
  | inl b ↦
      let same : u ≡ t = some-eq-some (rw b at f) in
      Among-front e _ (resends now q m) (rw ((str_beq_iff d c).0 b, same) k)
  | inr b ↦ Among-back e _ (resends now q m) (resends-Among e now q c t m (rw b at f) k)
]

round-Owing :
    (id now : ℕ) (q : QosEngine) (c : Str) (t : Map ℕ InflightMessage)
    → All (λ e. Owing id e.1) t
    → All (Owing id) (client_round now q c t).to_retry
round-Owing id now q c t h = elim (Bool-cases (retransmit_permitted c q)) [
  | inl b ↦ rw b (to_retry-Owing id now q.retry_interval t h)
  | inr b ↦ rw b tt
]

module _ (c : Str) (id now : ℕ) (q : QosEngine) where
  reports-NotPublished :
      (m : Map Str (Map ℕ InflightMessage)) → All (NotPublished c id) (reports now q m)
  unfolding reports
  reports-NotPublished [] = tt
  reports-NotPublished ((d, t) ∷ m) =
      All-append (NotPublished c id) _ (reports now q m)
        (report_given_up-All (NotPublished c id) q d (λ _ _. tt) (λ _. tt) _)
        (reports-NotPublished m)

  Owing-Sendable :
      (d : Str) (ms : List InflightMessage)
      → All (Owing id) ms
      → All (Sendable (NotPublished c id) q d (λ _ _. tt) (λ _. tt)) ms
  Owing-Sendable d [] h = tt
  Owing-Sendable d (m ∷ ms) h =
      ((tt, λ off _ same. ground (arith, off, h.0 same)), Owing-Sendable d ms h.1)

  resends-NotPublished :
      (m : Map Str (Map ℕ InflightMessage))
      → All (λ e. e.0 ≡ c → All (λ f. Owing id f.1) e.1) m
      → All (NotPublished c id) (resends now q m)
  unfolding resends
  resends-NotPublished [] h = tt
  resends-NotPublished ((d, t) ∷ m) h =
      All-append (NotPublished c id) _ (resends now q m)
        (send_again-All (NotPublished c id) q d (λ _ _. tt) (λ _. tt) _
          (here (Bool-cases (d == c))))
        (resends-NotPublished m h.1)
    where
      here :
          ((d == c) ≡ true) ⊎ ((d == c) ≡ false)
          → All
              (Sendable (NotPublished c id) q d (λ _ _. tt) (λ _. tt))
              (client_round now q d t).to_retry
      here (inl b) = Owing-Sendable d _ (round-Owing id now q d t (h.0 ((str_beq_iff d c).0 b)))
      here (inr b) =
          everywhere (λ m. (tt, λ _ same. absurd (ground (arith, b, same, str_beq_iff d c)))) _

-- For an outbound QoS 2 message whose PUBREC has come, a retry round never sends the PUBLISH: it sends
-- the PUBREL if the client's version permits it, the callback is set, the retry interval has passed and a
-- retry is left. (Where the engine has each client once, and the client's table each packet id once, with
-- each message under its own.)
pub do_retry-IsReceived :
    (c : Str) (id now : ℕ) (q : QosEngine) (t : Map ℕ InflightMessage) (msg : InflightMessage)
    → NodupKeys q.inflight
    → lookup c q.inflight ≡ some t
    → IsKeyed t
    → lookup id t ≡ some msg
    → IsReceived msg
    → All (NotPublished c id) (do_retry now q).1
      × ((send : Str → ℕ → Option QosError)
          → q.callbacks.send_pub_rel ≡ some send
          → retransmit_permitted c q ≡ true
          → q.retry_interval ≤ now - msg.sent_at
          → msg.retries < msg.max_retries
          → Among (pub_rel c id) (do_retry now q).1)
unfolding do_retry
do_retry-IsReceived c id now q t msg once e keyed f received = (
  All-append (NotPublished c id) (reports now q q.inflight) _
      (reports-NotPublished c id now q q.inflight)
      (resends-NotPublished c id now q q.inflight (
        client_All (All (λ e. Owing id e.1)) c q.inflight once
          (λ u k. subst (All (λ e. Owing id e.1)) (some-eq-some (sym e ∙ k)) owing))),
  λ send set on due left.
      let copy : InflightMessage = record msg { retries = msg.retries + 1; sent_at = now } in
      let decided : decide now q.retry_interval msg ≡ resend copy =
        unfold decide in ground (arith, due, left) in
      let sent : Among (pub_rel c id) (send_again q c (client_round now q c t).to_retry) = rw on (
        subst
          (λ j. Among (pub_rel c j) (send_again q c (retry_table now q.retry_interval t).to_retry))
          (keyed.own id msg f)
          (send_again-Among q c send copy _ set (IsReceived-owes msg received)
            (to_retry-Among id now q.retry_interval msg copy t f decided))) in
      Among-back (pub_rel c id) (reports now q q.inflight) _
        (resends-Among (pub_rel c id) now q c t q.inflight e sent),
)
  where
    owing : All (λ e. Owing id e.1) t
    owing = entries-All (Owing id) t keyed.once (λ j m k same.
        let at_id : lookup id t ≡ some m =
          subst (λ i. lookup i t ≡ some m) (sym (keyed.own j m k) ∙ same) k in
        subst (λ x. owes_pub_rel x ≡ true) (some-eq-some (sym f ∙ at_id))
          (IsReceived-owes msg received))
