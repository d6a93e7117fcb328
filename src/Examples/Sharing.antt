-- ===== src/Examples/Sharing.antt =====
-- A shared group of two members.
use shark_mqtt.Prelude.{
  ℕ, ◌^◌, ◌%◌, ◌<◌, ◌≡◌, ◌≢◌, refl, sym, true, Bool-cases, inl, inr, ◌==◌, none-ne-some,
  some-eq-some, List, str_eq, none, some, [], ◌∷◌, Str, codes, length, arith,
}
use shark_mqtt.Prelude.Map.{lookup, insert, Map}
use shark_mqtt.Protocol.Topic.{slash, validate_topic_filter, validate_from}
use shark_mqtt.Broker.TopicTree.{TopicTree, new_topic_tree, subscribe, unsubscribe}
use shark_mqtt.Broker.TopicTree.Valid.{IsTree, new_topic_tree-IsTree}
use shark_mqtt.Broker.TopicTree.Total.{
  IsCounted, operations-IsCounted, subscribe_shared-IsCounted, entry_count, sum,
}
use shark_mqtt.Broker.TopicTree.Count.{forest_count}
use shark_mqtt.Broker.TopicTree.Stats.{
  stats, listed, subscriber_count, int64, pos, subscriber_count-stats, stats_leading_slash,
}
use shark_mqtt.Broker.TopicTree.Shared.{subscribe_shared, unsubscribe_shared, match_shared}
use shark_mqtt.Broker.TopicTree.Shared.Groups.{Member}
use shark_mqtt.Broker.TopicTree.Shared.Served.{IsShared, IsServed, match_shared-IsServed}
use shark_mqtt.Broker.TopicTree.Shared.Choice.{results_for}
use shark_mqtt.Broker.TopicTree.Shared.Rounds.{AreMembers, TakeTurns, served, served-TakeTurns}
use shark_mqtt.Broker.TopicTree.Shared.Kept.{
  operations-IsShared, new_topic_tree-IsShared, subscribe_shared-IsShared,
}

abbrev workers : Str
workers = codes "workers"

abbrev jobs : Str
jobs = codes "jobs/+"

abbrev job : Str
job = codes "jobs/7"

abbrev one_member : TopicTree
one_member = subscribe_shared workers jobs (codes "ann") 1 new_topic_tree

abbrev two_members : TopicTree
two_members = subscribe_shared workers jobs (codes "bea") 2 one_member

abbrev group : Map Str (Map Str ℕ)
group = (jobs, (codes "ann", 1) ∷ (codes "bea", 2) ∷ []) ∷ []

one_member-IsShared : IsShared one_member
one_member-IsShared =
    subscribe_shared-IsShared workers jobs (codes "ann") 1 new_topic_tree new_topic_tree-IsShared

two_members-IsShared : IsShared two_members
two_members-IsShared =
    subscribe_shared-IsShared workers jobs (codes "bea") 2 one_member one_member-IsShared

in_workers : lookup workers two_members.shared_subs ≡ some group
unfolding subscribe_shared new_topic_tree lookup insert
in_workers = refl

match_shared-IsServed_example :
    (lookup workers two_members.shared_subs ≡ none
      → results_for workers (match_shared none job two_members).0 ≡ [])
    × ((filters : Map Str (Map Str ℕ))
        → lookup workers two_members.shared_subs ≡ some filters
        → IsServed none job workers filters
            (results_for workers (match_shared none job two_members).0))
match_shared-IsServed_example =
    match_shared-IsServed none job workers two_members two_members-IsShared

named : (c : Str) (q : ℕ) → Member job group c q → c ≢ []
unfolding lookup
named c q m e = granted_named m.filter m.clients m.held (rw e at m.granted)
  where
    granted_named :
        (filter : Str) (clients : Map Str ℕ)
        → lookup filter group ≡ some clients
        → lookup [] clients ≡ some q
        → ⊥
    granted_named filter clients h g = elim (Bool-cases (jobs == filter)) [
      | inl b ↦ none-ne-some (rw (sym (some-eq-some (rw b at h))) at g)
      | inr b ↦ none-ne-some (rw b at h)
    ]

served-TakeTurns_example :
    (members : List Str) × AreMembers none job group members
    × TakeTurns
        (lookup workers two_members.shared_last)
        members
        (served (length members) none job workers two_members)
served-TakeTurns_example =
    served-TakeTurns none job workers two_members group two_members-IsShared in_workers named

operations-IsShared_example :
    IsShared new_topic_tree
    × IsShared (subscribe_shared workers job (codes "cay") 0 two_members)
    × IsShared (unsubscribe_shared workers job (codes "cay") two_members)
    × IsShared (match_shared none job two_members).1
operations-IsShared_example =
    operations-IsShared workers job (codes "cay") job 0 none two_members two_members-IsShared

new_topic_tree-IsCounted : IsCounted new_topic_tree
unfolding new_topic_tree forest_count sum
new_topic_tree-IsCounted = omega arith

two_members-IsCounted : IsCounted two_members
two_members-IsCounted = subscribe_shared-IsCounted workers jobs (codes "bea") 2 one_member (
    subscribe_shared-IsCounted workers jobs (codes "ann") 1 new_topic_tree new_topic_tree-IsCounted)

two_members-IsTree : IsTree two_members
unfolding subscribe_shared
two_members-IsTree = new_topic_tree-IsTree

operations-IsCounted_example :
    IsCounted new_topic_tree
    × IsCounted (subscribe jobs (codes "cay") 1 two_members).0
    × IsCounted (unsubscribe jobs (codes "cay") two_members)
    × IsCounted (subscribe_shared workers jobs (codes "cay") 1 two_members)
    × IsCounted (unsubscribe_shared workers jobs (codes "cay") two_members)
    × IsCounted (match_shared none job two_members).1
operations-IsCounted_example =
    operations-IsCounted jobs (codes "cay") workers job 1 none two_members two_members-IsTree
      two_members-IsShared two_members-IsCounted

subscriber_count-stats_example :
    (listed (stats two_members) ≡ entry_count two_members)
    × (subscriber_count two_members ≡ int64 (listed (stats two_members) % 2 ^ 64))
    × (listed (stats two_members) < 2 ^ 63
        → subscriber_count two_members ≡ pos (listed (stats two_members)))
subscriber_count-stats_example = subscriber_count-stats two_members two_members-IsCounted

valid : validate_topic_filter jobs ≡ true
unfolding validate_topic_filter validate_from
valid = refl

valid_too : validate_topic_filter (slash ∷ jobs) ≡ true
unfolding validate_topic_filter validate_from
valid_too = refl

stats_leading_slash_example :
    stats (subscribe (slash ∷ jobs) (codes "ann") 1 new_topic_tree).0
    ≡ stats (subscribe jobs (codes "ann") 1 new_topic_tree).0
stats_leading_slash_example = stats_leading_slash jobs (codes "ann") 1 valid valid_too
