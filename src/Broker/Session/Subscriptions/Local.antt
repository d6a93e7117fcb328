-- ===== src/Broker/Session/Subscriptions/Local.antt =====
-- `AllowsLocalPublish` of broker/session.go, and the two maps of a session's subscriptions.
use shark_mqtt.Prelude.{ℕ, ◌≡◌, Bool, true, false, not, ◌||◌, [], ◌∷◌, Str, is_some, str_eq}
use shark_mqtt.Prelude.Map.{Map, lookup}
use shark_mqtt.Protocol.Topic.{match_topic}
use shark_mqtt.Broker.Session.Subscriptions.{Subscriptions, read_options, is_no_local}

-- The session is subscribed to `p`, which matches the topic as it is written.
abbrev pub Plain : Str → Map Str ℕ → Str → Type 0
Plain topic subs p = (is_some (lookup p subs) ≡ true) × (match_topic p topic ≡ true)

abbrev pub accepts_local : Subscriptions → Str → Bool
accepts_local s p = not (is_no_local (read_options p s.sub_options))

some_entry : (Str → Bool) → Map Str ℕ → Bool
some_entry f [] = false
some_entry f ((k, _) ∷ subs) = f k || some_entry f subs
