-- ===== src/Examples/Subscriptions.antt =====
-- Subscriptions at concrete topics.
use shark_mqtt.Prelude.{
  ℕ, ◌≤◌, ◌≡◌, ◌↔◌, refl, true, false, none, some, Str, List, ◌∷◌, WhenSome, codes, take,
}
use shark_mqtt.Protocol.Topic.{
  split_topic, split_from, match_topic, validate_topic_filter, validate_from, match_levels,
  match_sys_protected, first_level, is_system,
}
use shark_mqtt.Prelude.Map.{lookup, insert}
use shark_mqtt.Trie.{find, put}
use shark_mqtt.Protocol.Topic.Matching.{Matches}
use shark_mqtt.Protocol.Topic.Filters.{
  levels_ok, wild_first, validate_topic_filter-eq, match_topic_iff,
}
use shark_mqtt.Broker.TopicTree.{
  TopicTree, new_topic_tree, subscribe, subscribe_system, subscribe_node, unsubscribe,
}
use shark_mqtt.Broker.TopicTree.Found.{
  match, match_topics, match_node, enter, add_subscribers, add_subscriber, collect_all_subscribers,
  collect_children,
}
use shark_mqtt.Broker.TopicTree.Stored.{subscription, qos_at, subscription-unsubscribe}
use shark_mqtt.Broker.TopicTree.Valid.{IsTree, new_topic_tree-IsTree, subscribe-IsTree}
use shark_mqtt.Broker.TopicTree.Pruned.{IsPruned, LeadsOn, reach, operations-IsPruned}
use shark_mqtt.Broker.TopicTree.Matching.{OpenHit}
use shark_mqtt.Broker.TopicTree.Results.{result_of}
use shark_mqtt.Broker.TopicTree.Coverage.{match_sound, match_leading, match_complete}

abbrev alice : Str
alice = codes "alice"

abbrev bob : Str
bob = codes "bob"

abbrev sensors : Str
sensors = codes "a/+/c"

abbrev topic : Str
topic = codes "a/b/c"

abbrev two_clients : TopicTree
two_clients = (subscribe (codes "a") bob 2 (subscribe sensors alice 1 new_topic_tree).0).0

two_clients-IsTree : IsTree two_clients
two_clients-IsTree =
    subscribe-IsTree (codes "a") bob 2 (subscribe sensors alice 1 new_topic_tree).0
      (subscribe-IsTree sensors alice 1 new_topic_tree new_topic_tree-IsTree)

alice_subscribed : subscription sensors alice two_clients ≡ some 1
unfolding subscription qos_at new_topic_tree subscribe subscribe_node find put validate_topic_filter
    validate_from split_topic split_from lookup insert
alice_subscribed = refl

bob_subscribed : subscription (codes "a") bob two_clients ≡ some 2
unfolding subscription qos_at new_topic_tree subscribe subscribe_node find put validate_topic_filter
    validate_from split_topic split_from lookup insert
bob_subscribed = refl

sensors_match : match_sys_protected sensors topic ≡ true
unfolding match_sys_protected match_topic match_levels first_level split_topic split_from
sensors_match = refl

leading_match : match_levels (split_topic (codes "a")) (take 1 (split_topic topic)) ≡ true
unfolding match_levels split_topic split_from
leading_match = refl

alice_found : result_of alice (match topic two_clients) ≡ some 1
unfolding new_topic_tree subscribe subscribe_node find put validate_topic_filter validate_from
    split_topic split_from lookup insert match match_topics match_node enter add_subscribers
    add_subscriber collect_all_subscribers collect_children result_of
alice_found = refl

match_complete_example : (r : ℕ) × (result_of alice (match topic two_clients) ≡ some r) × (1 ≤ r)
match_complete_example =
    match_complete topic sensors alice 1 two_clients two_clients-IsTree alice_subscribed
      sensors_match

match_sound_example : OpenHit (split_topic topic) two_clients.root alice 1
match_sound_example = match_sound topic alice 1 two_clients two_clients-IsTree alice_found

match_leading_example : (r : ℕ) × (result_of bob (match topic two_clients) ≡ some r) × (2 ≤ r)
match_leading_example =
    match_leading topic (codes "a") bob 2 1 two_clients two_clients-IsTree bob_subscribed
      (unfold split_topic split_from in refl) leading_match

two_clients-IsPruned : IsPruned two_clients
two_clients-IsPruned =
    (operations-IsPruned (codes "a") bob 2 (subscribe sensors alice 1 new_topic_tree).0
      ((operations-IsPruned sensors alice 1 new_topic_tree (unfold new_topic_tree in tt)).1)).1

operations-IsPruned_example :
    IsPruned new_topic_tree
    × IsPruned (subscribe sensors bob 2 two_clients).0
    × IsPruned (subscribe_system sensors bob 2 two_clients).0
    × IsPruned (unsubscribe sensors bob two_clients)
    × ((p : Str) (ps : List Str)
        → WhenSome LeadsOn (reach (p ∷ ps) (unsubscribe sensors bob two_clients).root))
operations-IsPruned_example = operations-IsPruned sensors bob 2 two_clients two_clients-IsPruned

subscription-unsubscribe_example :
    subscription sensors alice (unsubscribe sensors alice two_clients) ≡ none
subscription-unsubscribe_example = subscription-unsubscribe sensors sensors alice alice two_clients

match_topic_iff_example :
    ((match_topic sensors topic ≡ true) ↔ Matches (split_topic sensors) (split_topic topic))
    × ((match_sys_protected sensors topic ≡ true) ↔ (
        Matches (split_topic sensors) (split_topic topic)
        × (is_system topic ≡ true → wild_first (split_topic sensors) ≡ false)))
match_topic_iff_example =
    match_topic_iff sensors topic (unfold validate_topic_filter validate_from in refl)

validate_topic_filter-eq_example : validate_topic_filter sensors ≡ levels_ok (split_topic sensors)
validate_topic_filter-eq_example = validate_topic_filter-eq sensors
