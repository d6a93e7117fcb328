-- ===== src/Examples/Matches.antt =====
-- A session with overlapping subscriptions.
use shark_mqtt.Prelude.{
  ◌≡◌, refl, true, false, some, [], ◌∷◌, Str, str_eq, str_beq_iff, codes, arith,
}
use shark_mqtt.Prelude.Map.{lookup}
use shark_mqtt.Broker.Session.Subscriptions.{
  Subscriptions, SubscriptionOptions, zero_options, options_of, match_subscriptions,
}
use shark_mqtt.Broker.Session.Subscriptions.Answers.{
  Answers, Matching, match_subscriptions-Answers, match_subscriptions_unordered,
}

abbrev wide : Str
wide = codes "a/#"

abbrev narrow : Str
narrow = codes "a/b"

abbrev plain : SubscriptionOptions
plain = record zero_options { qos = 1; subscription_identifier = some 7 }

abbrev subscribed : Subscriptions
subscribed = record {
  subscriptions = (wide, 1) ∷ (narrow, 1) ∷ [];
  sub_options =
      some ((wide, plain) ∷ (narrow, record plain { subscription_identifier = some 3 }) ∷ []);
  keep_alive = 60;
  last_activity = 0;
}

-- The same entries, ranged over in another order.
abbrev reordered : Subscriptions
reordered = record subscribed { subscriptions = (narrow, 1) ∷ (wide, 1) ∷ [] }

match_subscriptions-Answers_example :
    Answers
      (λ p. options_of p subscribed)
      (Matching true narrow subscribed.subscriptions)
      (match_subscriptions narrow true subscribed)
unfolding lookup
match_subscriptions-Answers_example =
    match_subscriptions-Answers narrow true subscribed (refl, (refl, tt))

same_entries : (p : Str) → lookup p subscribed.subscriptions ≡ lookup p reordered.subscriptions
unfolding lookup
same_entries p = ground (arith, str_beq_iff wide p, str_beq_iff narrow p)

match_subscriptions_unordered_example :
    match_subscriptions narrow false subscribed ≡ match_subscriptions narrow false reordered
unfolding lookup options_of
match_subscriptions_unordered_example =
    match_subscriptions_unordered narrow false subscribed reordered (refl, (refl, tt))
      (refl, (refl, tt)) same_entries (λ p. refl)
