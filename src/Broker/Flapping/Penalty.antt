-- ===== src/Broker/Flapping/Penalty.antt =====
-- The penalty of broker/flapping.go: how it begins, that it is not extended, and how it ends.
use shark_mqtt.Prelude.{
  ℕ, ◌+◌, ◌-◌, ◌<◌, ◌≡◌, ◌≢◌, ◌∙◌, refl, ap, Bool, true, false, ◌||◌, Option, none, some, List, [],
  ◌∷◌, Str, length, nat_eq, str_eq, str_beq, if◌then◌else◌, arith, Bool-cases, inl, inr, beq_refl,
}
use shark_mqtt.Prelude.Map.{Map, lookup, delete, lookup-insert, lookup-delete}
use shark_mqtt.Broker.Flapping.{
  FlappingConfig, FlappingDetector, FlappingEntry, FlappingDecision, flap_rejected, flap_exceeded,
  flap_allow, check, check_fresh, in_penalty, seen, penalize, penalty_remaining, or_blank, reset,
  delete_keys, contains, link, record_key,
}

-- An attempt during the penalty of its address is rejected, whoever makes it, and the penalty does
-- not get longer: at any later time as much of it remains as without the attempt.
pub check_penalized :
    (ip client : Str) (now later : ℕ) (d : FlappingDetector) (e : FlappingEntry)
    → d.cfg.enabled ≡ true
    → in_penalty ip now d ≡ some e
    → (check ip client now d ≡ some (seen ip now e d, flap_rejected))
      × (penalty_remaining ip later (seen ip now e d) ≡ penalty_remaining ip later d)
unfolding check penalty_remaining in_penalty
check_penalized ip client now later d e on p =
    let there : lookup ip d.keys ≡ some e = ground (arith, p) in
    (
      ground (arith, p),
      ground (arith, there, lookup-insert ip ip (record e { last_seen = now }) d.keys, beq_refl ip),
    )

abbrev penalized : Str → ℕ → FlappingDetector → FlappingEntry
penalized key now d = record (or_blank (lookup key d.keys)) {
  penalized_until = now + d.cfg.penalty_duration;
  stamps = [];
  head = 0;
  last_seen = now;
}

lookup-penalize :
    (key k : Str) (now : ℕ) (d : FlappingDetector)
    → length key ≢ 0
    → lookup k (penalize key now d).keys
      ≡ (if str_beq key k then some (penalized key now d) else lookup k d.keys)
unfolding penalize
lookup-penalize key k now d h = ground (arith, lookup-insert key k (penalized key now d) d.keys)

cfg-penalize : (key : Str) (now : ℕ) (d : FlappingDetector) → (penalize key now d).cfg ≡ d.cfg
unfolding penalize
cfg-penalize key now d = ground arith

cfg-link : (a b : Str) (d : FlappingDetector) → (link a b d).cfg ≡ d.cfg
unfolding link
cfg-link a b d = ground arith

cfg-record_key :
    (key : Str) (now : ℕ) (d d' : FlappingDetector) (v : Bool)
    → record_key key now d ≡ some (d', v)
    → d'.cfg ≡ d.cfg
unfolding record_key
cfg-record_key key now d d' v e = ground (arith, e)

-- What a penalty of this end has left.
remaining_lem :
    (key : Str) (now duration : ℕ) (d : FlappingDetector) (e : FlappingEntry)
    → d.cfg.enabled ≡ true
    → length key ≢ 0
    → 0 < duration
    → lookup key d.keys ≡ some e
    → e.penalized_until ≡ now + duration
    → penalty_remaining key now d ≡ some duration
unfolding penalty_remaining in_penalty
remaining_lem key now duration d e on h p l u =
    let left : e.penalized_until - now ≡ duration = omega arith in ground (arith, l, on, left)

exceeded_inv :
    (ip client : Str) (now : ℕ) (d d' : FlappingDetector)
    → check_fresh ip client now d ≡ some (d', flap_exceeded)
    → (l : FlappingDetector) × (l.cfg ≡ d.cfg) × (d' ≡ penalize client now (penalize ip now l))
unfolding check_fresh
exceeded_inv ip client now d d' h = go (record_key ip now d) refl h
  where
    after :
        FlappingDetector
        → Bool
        → Option (FlappingDetector × Bool)
        → Option (FlappingDetector × FlappingDecision)
    after d1 a none = none
    after d1 a (some (d2, b)) =
        let linked = link ip client d2 in
        some (
          if a || b
          then (penalize client now (penalize ip now linked), flap_exceeded)
          else (linked, flap_allow))

    done :
        (d1 d2 : FlappingDetector) (a b : Bool)
        → d1.cfg ≡ d.cfg
        → d2.cfg ≡ d1.cfg
        → after d1 a (some (d2, b)) ≡ some (d', flap_exceeded)
        → (l : FlappingDetector) × (l.cfg ≡ d.cfg) × (d' ≡ penalize client now (penalize ip now l))
    done d1 d2 true b c1 c2 e = (link ip client d2, cfg-link ip client d2 ∙ c2 ∙ c1, cc)
    done d1 d2 false true c1 c2 e = (link ip client d2, cfg-link ip client d2 ∙ c2 ∙ c1, cc)
    done d1 d2 false false c1 c2 e = absurd cc

    second :
        (d1 : FlappingDetector) (a : Bool) (o : Option (FlappingDetector × Bool))
        → d1.cfg ≡ d.cfg
        → record_key client now d1 ≡ o
        → after d1 a o ≡ some (d', flap_exceeded)
        → (l : FlappingDetector) × (l.cfg ≡ d.cfg) × (d' ≡ penalize client now (penalize ip now l))
    second d1 a none c1 r e = absurd cc
    second d1 a (some (d2, b)) c1 r e = done d1 d2 a b c1 (cfg-record_key client now d1 d2 b r) e

    go :
        (o : Option (FlappingDetector × Bool))
        → record_key ip now d ≡ o
        → ◌≡◌ {A = Option (FlappingDetector × FlappingDecision)}
            (elim o [ none ↦ none | some (d1, a) ↦ after d1 a (record_key client now d1) ])
            (some (d', flap_exceeded))
        → (l : FlappingDetector) × (l.cfg ≡ d.cfg) × (d' ≡ penalize client now (penalize ip now l))
    go none r e = absurd cc
    go (some (d1, a)) r e =
        second d1 a (record_key client now d1) (cfg-record_key ip now d d1 a r) refl e

check-fresh :
    (ip client : Str) (now : ℕ) (d d' : FlappingDetector)
    → d.cfg.enabled ≡ true
    → check ip client now d ≡ some (d', flap_exceeded)
    → check_fresh ip client now d ≡ some (d', flap_exceeded)
unfolding check
check-fresh ip client now d d' on h = ground (arith, h)

-- An attempt that trips the limit begins the penalty of both its keys, the address and the client id,
-- at its full length, if neither is empty and the penalty is not 0.
pub check_exceeded :
    (ip client : Str) (now : ℕ) (d d' : FlappingDetector)
    → d.cfg.enabled ≡ true
    → 0 < d.cfg.penalty_duration
    → length ip ≢ 0
    → length client ≢ 0
    → check ip client now d ≡ some (d', flap_exceeded)
    → (penalty_remaining ip now d' ≡ some d.cfg.penalty_duration)
      × (penalty_remaining client now d' ≡ some d.cfg.penalty_duration)
check_exceeded ip client now d d' on p hi hc h =
    let (l, c, e) = exceeded_inv ip client now d d' (check-fresh ip client now d d' on h) in
    let first = penalize ip now l in
    let both = penalize client now first in
    let c1 : first.cfg ≡ d.cfg = cfg-penalize ip now l ∙ c in
    let on' : both.cfg.enabled ≡ true =
      ap (λ (x : FlappingConfig). x.enabled) (cfg-penalize client now first ∙ c1) ∙ on in
    let until : now + first.cfg.penalty_duration ≡ now + d.cfg.penalty_duration =
      ap (λ (x : FlappingConfig). now + x.penalty_duration) c1 in
    let until' : now + l.cfg.penalty_duration ≡ now + d.cfg.penalty_duration =
      ap (λ (x : FlappingConfig). now + x.penalty_duration) c in
    let at_client = lookup-penalize client client now first hc in
    let at_ip = lookup-penalize client ip now first hc in
    rw e (
      elim (Bool-cases (str_beq client ip)) [
        | inl b ↦
            remaining_lem ip now d.cfg.penalty_duration both (penalized client now first) on' hi p
              (at_ip ∙ rw b refl) until
        | inr b ↦
            remaining_lem ip now d.cfg.penalty_duration both (penalized ip now l) on' hi p
              (at_ip ∙ rw b (lookup-penalize ip ip now l hi ∙ rw (beq_refl ip) refl)) until'
      ],
      remaining_lem client now d.cfg.penalty_duration both (penalized client now first) on' hc p
          (at_client ∙ rw (beq_refl client) refl) until,
    )

absent_lem :
    (key : Str) (now : ℕ) (d : FlappingDetector)
    → lookup key d.keys ≡ none
    → penalty_remaining key now d ≡ none
unfolding penalty_remaining in_penalty
absent_lem key now d h = ground (arith, h)

lookup-delete_keys :
    (k : Str) (ks : List Str) (m : Map Str FlappingEntry)
    → lookup k (delete_keys ks m) ≡ (if contains ks k then none else lookup k m)
unfolding delete_keys contains
lookup-delete_keys k [] m = refl
lookup-delete_keys k (j ∷ ks) m =
    ground (arith, lookup-delete_keys k ks (delete j m), lookup-delete j k m)

-- Lifting the penalty of a key that is tracked lifts it for every key that it was seen with.
pub reset_lem :
    (key k : Str) (now : ℕ) (d : FlappingDetector) (e : FlappingEntry)
    → lookup key d.keys ≡ some e
    → (penalty_remaining key now (reset key d) ≡ none)
      × (contains e.alias k ≡ true → penalty_remaining k now (reset key d) ≡ none)
unfolding reset
reset_lem key k now d e h =
    let left = delete_keys e.alias d.keys in
    rw (h, reset)
      (
        absent_lem key now (record d { keys = delete key left })
            (lookup-delete key key left ∙ rw (beq_refl key) refl),
        λ a.
            absent_lem k now (record d { keys = delete key left })
              (ground (arith, lookup-delete key k left, lookup-delete_keys k e.alias d.keys, a)),
      )
