-- ===== src/Examples/Relaying.antt =====
-- A request with a correlation, stored, restored and handed on.
use shark_mqtt.Prelude.{◌+◌, ◌-◌, ◌*◌, ◌≤◌, ◌<◌, ◌≡◌, ◌⊎◌, ◌↔◌, none, some, [], ◌∷◌, codes, arith}
use shark_mqtt.Broker.PublishProperties.{
  Properties, MessageProperties, no_message_properties, no_properties, or_no_properties,
  expiry_interval, remaining_expiry, forwarded_publish_properties, store_properties,
  protocol_properties,
}
use shark_mqtt.Broker.PublishProperties.RoundTrip.{store-protocol_properties}
use shark_mqtt.Broker.PublishProperties.Expiry.{remaining_expiry_lem}
use shark_mqtt.Broker.PublishProperties.Relay.{forwarded_publish_properties_lem}

abbrev request : Properties
request = record no_properties {
  response_topic = codes "answers/ann";
  correlation_data = some (codes "17");
  message_expiry_interval = some 30;
}

abbrev stored : MessageProperties
stored = record no_message_properties { user_properties = (codes "k", codes "v") ∷ [] }

store-protocol_properties_example :
    (store_properties (protocol_properties stored) ≡ stored)
    × ((protocol_properties (store_properties (some request))
          ≡ some (record request { message_expiry_interval = none }))
        ⊎ ((protocol_properties (store_properties (some request)) ≡ none)
            × (store_properties (some request) ≡ no_message_properties)))
store-protocol_properties_example = store-protocol_properties stored request

forwarded_publish_properties_example :
    or_no_properties (forwarded_publish_properties 5 (some request) (3 ∷ 7 ∷ []) (some 9))
    ≡ record request {
      message_expiry_interval = expiry_interval 5 (some 9);
      subscription_identifier = 3 ∷ 7 ∷ [];
    }
forwarded_publish_properties_example =
    forwarded_publish_properties_lem 5 request (3 ∷ 7 ∷ []) (some 9)

remaining_expiry_example :
    ((remaining_expiry 5 2500000005 ≡ 0) ↔ (2500000005 ≤ 5))
    × (5 + 1000000000 ≤ 2500000005
        → (remaining_expiry 5 2500000005 * 1000000000 ≤ 2500000005 - 5)
          × (2500000005 - 5 < (remaining_expiry 5 2500000005 + 1) * 1000000000))
remaining_expiry_example = remaining_expiry_lem 5 2500000005 (omega arith)
