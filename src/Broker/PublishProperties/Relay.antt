-- ===== src/Broker/PublishProperties/Relay.antt =====
-- What a subscriber's copy of a message carries, by broker/publish_properties.go.
use shark_mqtt.Prelude.{
  ℕ, ◌≡◌, refl, ap, Bool, false, not, ◌||◌, Option, none, some, List, [], ◌∷◌, length, is_some,
  ◌==◌, nat_eq, arith, Bool-cases, inl, inr,
}
use shark_mqtt.Broker.PublishProperties.{
  Properties, relayed, or_no_properties, expiry_interval, forwarded_publish_properties,
}
use shark_mqtt.Broker.PublishProperties.RoundTrip.{empty_list, no_value}

-- The publisher's part, whether there is something to relay or not.
relayed_lem :
    (p : Properties)
    → or_no_properties (relayed (some p))
      ≡ record p { message_expiry_interval = none; subscription_identifier = [] }
relayed_lem p = elim (Bool-cases test) [
  | inl b ↦ rw b refl
  | inr b ↦
      let a = no_value p.payload_format (ground (arith, b)) in
      let c = empty_list p.content_type (ground (arith, b)) in
      let d = empty_list p.response_topic (ground (arith, b)) in
      let e = no_value p.correlation_data (ground (arith, b)) in
      let f = empty_list p.user_properties (ground (arith, b)) in rw b (cc (a, c, d, e, f))
]
  where
    test : Bool
    test =
        is_some p.payload_format
        || not (length p.content_type == 0)
        || not (length p.response_topic == 0)
        || is_some p.correlation_data
        || not (length p.user_properties == 0)

-- The copy of a message carries what the publisher set for the receiver unaltered, the user
-- properties in their order; the identifiers of the matching subscriptions; and the time left to
-- the deadline if there is one, else no expiry, whatever the publisher sent. (A copy without
-- properties counts as one whose properties are all unset.)
pub forwarded_publish_properties_lem :
    (now : ℕ) (p : Properties) (sub_ids : List ℕ) (expires_at : Option ℕ)
    → or_no_properties (forwarded_publish_properties now (some p) sub_ids expires_at) ≡ record p {
      message_expiry_interval = expiry_interval now expires_at;
      subscription_identifier = sub_ids;
    }
unfolding forwarded_publish_properties
forwarded_publish_properties_lem now p [] none = relayed_lem p
forwarded_publish_properties_lem now p [] (some at) =
    ap
      (λ (r : Properties). record r {
        message_expiry_interval = expiry_interval now (some at);
        subscription_identifier = [];
      })
      (relayed_lem p)
forwarded_publish_properties_lem now p (i ∷ ids) expires_at =
    let some_ids : (length (i ∷ ids) == 0) ≡ false = ground arith in
    rw some_ids (
      ap
        (λ (r : Properties). record r {
          message_expiry_interval = expiry_interval now expires_at;
          subscription_identifier = i ∷ ids;
        })
        (relayed_lem p))
