-- ===== src/Broker/PublishProperties/Expiry.antt =====
-- The Message Expiry Interval that broker/publish_properties.go advertises.
use shark_mqtt.Prelude.{ℕ, ◌+◌, ◌-◌, ◌*◌, ◌≤◌, ◌<◌, ◌≡◌, ◌↔◌, nat_eq, arith}
use shark_mqtt.Broker.PublishProperties.{until, remaining_expiry}

-- The interval that is advertised is 0 exactly when the deadline has been reached, if the deadline is
-- less than 2 ^ 32 seconds ahead; with a second or more to go it is the whole seconds that are left.
pub remaining_expiry_lem :
    (now at : ℕ)
    → at < now + 4294967296 * 1000000000
    → ((remaining_expiry now at ≡ 0) ↔ (at ≤ now))
      × (now + 1000000000 ≤ at
          → (remaining_expiry now at * 1000000000 ≤ at - now)
            × (at - now < (remaining_expiry now at + 1) * 1000000000))
unfolding remaining_expiry until
remaining_expiry_lem now at h = ground arith
