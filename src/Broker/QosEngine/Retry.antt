-- ===== src/Broker/QosEngine/Retry.antt =====
-- The retry round of broker/qos_engine.go: who is passed over, and what is sent again.
use shark_mqtt.Prelude.{
  ℕ, ◌≡◌, ◌≢◌, Bool, true, false, Option, none, some, List, [], ◌∷◌, ◌++◌, Str, nat_eq, str_eq,
  str_beq, str_beq_iff, if◌then◌else◌, All, Bool-cases, inl, inr,
}
use shark_mqtt.Prelude.Map.{Map}
use shark_mqtt.Broker.QosEngine.{
  InflightMessage, QosError, Effect, pub_rel, pub_comp, republished, reported, gave_up, QosEngine,
  retransmit_permitted,
}
use shark_mqtt.Broker.QosEngine.Steps.{
  report_error, call_pub_rel, call_republish, client_round, report_given_up, owes_pub_rel,
  send_again, reports, resends,
}

abbrev pub effect_client : Effect → Str
effect_client (pub_rel c id) = c
effect_client (pub_comp c id) = c
effect_client (republished c msg) = c
effect_client (reported c id e) = c
effect_client (gave_up c id) = c

pub All-append {ℓ} :
    {A : Type ℓ} (P : A → Type 0) (front back : List A)
    → All P front
    → All P back
    → All P (front ++ back)
All-append P [] back none_left behind = behind
All-append P (first ∷ front) back (here, ahead) behind =
    (here, All-append P front back ahead behind)

-- What holds of every effect that a retry round can have for the client `d`.
module _ (P : Effect → Type 0) (q : QosEngine) (d : Str)
    (report : (id : ℕ) (e : QosError) → P (reported d id e))
    (give : (id : ℕ) → P (gave_up d id)) where
  report_error-All : (id : ℕ) (e : Option QosError) → All P (report_error q d id e)
  unfolding report_error
  report_error-All id none = tt
  report_error-All id (some e) = elim (Bool-cases q.callbacks.has_on_error) [
    | inl b ↦ rw b (report id e, tt)
    | inr b ↦ rw b tt
  ]

  gave_up-All : (b : Bool) (id : ℕ) → All P (if b then gave_up d id ∷ [] else [])
  gave_up-All true id = (give id, tt)
  gave_up-All false id = tt

  pub report_given_up-All : (ids : List ℕ) → All P (report_given_up q d ids)
  unfolding report_given_up
  report_given_up-All [] = tt
  report_given_up-All (id ∷ ids) =
      All-append P _ (report_given_up q d ids)
        (All-append P _ (report_error q d id _) (gave_up-All q.callbacks.has_on_give_up id)
          (report_error-All id _))
        (report_given_up-All ids)

  call_pub_rel-All : (id : ℕ) → P (pub_rel d id) → All P (call_pub_rel q d id)
  unfolding call_pub_rel
  call_pub_rel-All id release = go q.callbacks.send_pub_rel
    where
      go :
          (o : Option (Str → ℕ → Option QosError))
          → All P (
              let r : List Effect = elim o [
                | none ↦ []
                | some f ↦ pub_rel d id ∷ report_error q d id (f d id)
              ] in
              r)
      go none = tt
      go (some f) = (release, report_error-All id (f d id))

  call_republish-All : (m : InflightMessage) → P (republished d m) → All P (call_republish q d m)
  unfolding call_republish
  call_republish-All m publish = go q.callbacks.republish
    where
      go :
          (o : Option (Str → InflightMessage → Option QosError))
          → All P (
              let r : List Effect = elim o [
                | none ↦ []
                | some f ↦ republished d m ∷ report_error q d m.packet_id (f d m)
              ] in
              r)
      go none = tt
      go (some f) = (publish, report_error-All m.packet_id (f d m))

  -- What a message of a round may make the round send.
  abbrev pub Sendable : InflightMessage → Type 0
  Sendable m = P (pub_rel d m.packet_id) × (owes_pub_rel m ≡ false → P (republished d m))

  send_one-All :
      (m : InflightMessage)
      → Sendable m
      → All P (if owes_pub_rel m then call_pub_rel q d m.packet_id else call_republish q d m)
  send_one-All m h = elim (Bool-cases (owes_pub_rel m)) [
    | inl b ↦ rw b (call_pub_rel-All m.packet_id h.0)
    | inr b ↦ rw b (call_republish-All m (h.1 b))
  ]

  pub send_again-All : (ms : List InflightMessage) → All Sendable ms → All P (send_again q d ms)
  unfolding send_again
  send_again-All [] h = tt
  send_again-All (m ∷ ms) h =
      All-append P _ (send_again q d ms) (send_one-All m h.0) (send_again-All ms h.1)

pub everywhere {ℓ} : {A : Type ℓ} {P : A → Type 0} → ((a : A) → P a) → (xs : List A) → All P xs
everywhere h [] = tt
everywhere h (x ∷ xs) = (h x, everywhere h xs)

abbrev pub Spares : Str → Effect → Type 0
Spares c e = effect_client e ≢ c

-- A client to whom nothing may be sent again has no part in the effects.
module _ (now : ℕ) (q : QosEngine) (c : Str) (off : retransmit_permitted c q ≡ false) where
  spare_reports :
      (d : Str) (m : Map ℕ InflightMessage)
      → All (Spares c) (report_given_up q d (client_round now q d m).to_report)
  spare_reports d m = elim (Bool-cases (str_beq d c)) [
    | inl b ↦ rw ((str_beq_iff d c).0 b, off) (unfold report_given_up in tt)
    | inr b ↦
        let ne : d ≢ c = λ e. cc (b, (str_beq_iff d c).1 e) in
        report_given_up-All (Spares c) q d (λ _ _. ne) (λ _. ne) _
  ]

  spare_resends :
      (d : Str) (m : Map ℕ InflightMessage)
      → All (Spares c) (send_again q d (client_round now q d m).to_retry)
  spare_resends d m = elim (Bool-cases (str_beq d c)) [
    | inl b ↦ rw ((str_beq_iff d c).0 b, off) (unfold send_again in tt)
    | inr b ↦
        let ne : d ≢ c = λ e. cc (b, (str_beq_iff d c).1 e) in
        send_again-All (Spares c) q d (λ _ _. ne) (λ _. ne) _ (everywhere (λ m. (ne, λ _. ne)) _)
  ]

  pub reports-Spares : (m : Map Str (Map ℕ InflightMessage)) → All (Spares c) (reports now q m)
  unfolding reports
  reports-Spares [] = tt
  reports-Spares ((d, m) ∷ rest) =
      All-append (Spares c) _ (reports now q rest) (spare_reports d m) (reports-Spares rest)

  pub resends-Spares : (m : Map Str (Map ℕ InflightMessage)) → All (Spares c) (resends now q m)
  unfolding resends
  resends-Spares [] = tt
  resends-Spares ((d, m) ∷ rest) =
      All-append (Spares c) _ (resends now q rest) (spare_resends d m) (resends-Spares rest)
