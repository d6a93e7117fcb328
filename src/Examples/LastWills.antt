-- ===== src/Examples/LastWills.antt =====
-- A will that waits out its delay.
use shark_mqtt.Prelude.{
  ℕ, ◌⊎◌, ◌≡◌, ◌≢◌, refl, true, false, none, some, [], ◌∷◌, Str, str_eq, codes,
}
use shark_mqtt.Prelude.Map.{lookup, insert}
use shark_mqtt.Broker.Wills.{
  WillMessage, WillHandler, callback_set, registered, triggered, passed, fired, run, step,
  new_will_handler, set_publish_callback, register_will, stop_timer, relayable_will_properties,
  trigger_will, cancel_will, remove_will, stop,
}
use shark_mqtt.Broker.Wills.Published.{NoneTwice, run-NoneTwice, is_published}
use shark_mqtt.Broker.Wills.Retired.{given_up_unpublished}
use shark_mqtt.Broker.Wills.Owner.{Publishes, Waits, trigger_will-Waits}

abbrev ann : Str
ann = codes "ann"

abbrev last_words : WillMessage
last_words = record {
  serial = 0;
  client_id = ann;
  username = ann;
  topic = codes "gone/ann";
  payload = codes "bye";
  qos = 1;
  retain = false;
  properties = none;
  delay = 5;
  conn = some 1;
}

run-NoneTwice_example :
    NoneTwice
      (run
        (callback_set ∷ registered last_words ∷ triggered ann (some 1) ∷ passed 0 ∷ fired ann ∷ [])
        new_will_handler).published
run-NoneTwice_example =
    run-NoneTwice
      (callback_set ∷ registered last_words ∷ triggered ann (some 1) ∷ passed 0 ∷ fired ann ∷ [])

abbrev start : WillHandler
start = run (callback_set ∷ registered last_words ∷ []) new_will_handler

is_registered : lookup ann start.wills ≡ some last_words
unfolding run step set_publish_callback register_will stop_timer relayable_will_properties
    new_will_handler lookup insert
is_registered = refl

can_publish_it : start.has_callback ≡ true
unfolding run step set_publish_callback register_will stop_timer relayable_will_properties
    new_will_handler lookup insert
can_publish_it = refl

given_up_unpublished_example :
    let later = triggered ann none ∷ passed 0 ∷ [] in
    (is_published 0 (run later (cancel_will ann start)).published ≡ false)
    × (is_published 0 (run later (remove_will ann start)).published ≡ false)
    × (is_published 0 (run later (stop start)).published ≡ false)
    × (is_published 0 (run later (register_will last_words start)).published ≡ false)
given_up_unpublished_example =
    given_up_unpublished (callback_set ∷ registered last_words ∷ [])
      (triggered ann none ∷ passed 0 ∷ []) ann last_words last_words is_registered refl

trigger_will-Waits_example :
    let g = trigger_will ann (some 1) start in
    ((lookup ann start.cancel ≡ none) × (last_words.delay ≡ 0) × Publishes ann last_words start g)
    ⊎ ((last_words.delay ≢ 0)
        × (g.published ≡ start.published)
        × ((id : ℕ) × (lookup ann g.cancel ≡ some id) × Waits ann last_words id g))
trigger_will-Waits_example =
    trigger_will-Waits (callback_set ∷ registered last_words ∷ []) ann last_words (some 1)
      is_registered can_publish_it refl refl
