-- ===== src/Broker/PublishProperties/RoundTrip.antt =====
-- Storing and restoring the properties of a message, in broker/publish_properties.go.
use shark_mqtt.Prelude.{
  ◌≡◌, ◌⊎◌, refl, sym, Bool, true, not, ◌&&◌, Option, none, some, List, [], ◌∷◌, length, is_some,
  ◌==◌, nat_eq, arith, Bool-cases, inl, inr,
}
use shark_mqtt.Broker.PublishProperties.{
  Properties, MessageProperties, no_message_properties, store_properties, protocol_properties,
}

pub empty_list : {A : Type 0} (l : List A) → (length l == 0) ≡ true → l ≡ []
empty_list [] h = refl
empty_list (x ∷ l) h = absurd (ground (arith, h))

pub no_value : {A : Type 0} (o : Option A) → not (is_some o) ≡ true → o ≡ none
no_value none h = refl
no_value (some a) h = absurd (ground (arith, h))

-- The test of `protocolProperties` for a set that holds nothing.
abbrev is_blank : MessageProperties → Bool
is_blank sp =
    not (is_some sp.payload_format)
    && length sp.content_type == 0
    && length sp.response_topic == 0
    && not (is_some sp.correlation_data)
    && length sp.user_properties == 0
    && length sp.subscription_identifier == 0

blank_lem : (sp : MessageProperties) → is_blank sp ≡ true → no_message_properties ≡ sp
blank_lem sp h =
    let a = no_value sp.payload_format (ground (arith, h)) in
    let b = empty_list sp.content_type (ground (arith, h)) in
    let c = empty_list sp.response_topic (ground (arith, h)) in
    let d = no_value sp.correlation_data (ground (arith, h)) in
    let e = empty_list sp.user_properties (ground (arith, h)) in
    let f = empty_list sp.subscription_identifier (ground (arith, h)) in cc (a, b, c, d, e, f)

-- A stored property set survives the way to the packet of a retransmission and back; and a
-- packet's properties come back from the store but for the Message Expiry Interval, or as none,
-- and then they are empty but for it.
pub store-protocol_properties :
    (sp : MessageProperties) (p : Properties)
    → (store_properties (protocol_properties sp) ≡ sp)
      × ((protocol_properties (store_properties (some p))
            ≡ some (record p { message_expiry_interval = none }))
          ⊎ ((protocol_properties (store_properties (some p)) ≡ none)
              × (store_properties (some p) ≡ no_message_properties)))
unfolding store_properties protocol_properties
store-protocol_properties sp p = (
  restored sp,
  elim (Bool-cases (is_blank (store_properties (some p)))) [
    | inl b ↦ inr (rw b refl, sym (blank_lem (store_properties (some p)) b))
    | inr b ↦ inl (rw b refl)
  ],
)
  where
    restored : (m : MessageProperties) → store_properties (protocol_properties m) ≡ m
    restored m = elim (Bool-cases (is_blank m)) [ inl b ↦ rw b (blank_lem m b) | inr b ↦ rw b refl ]
