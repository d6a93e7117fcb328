-- ===== src/Broker/TopicTree.antt =====
-- broker/topic_tree.go: the subscription trie. Each method takes and returns the whole tree; the
-- locks make every method one step. `total_subs` is the bit pattern of the int64 counter.
pub mod Found
pub mod Stored
pub mod Adds
pub mod Valid
pub mod Pruned
pub mod Matching
pub mod Results
pub mod Count
pub mod Total
pub mod Stats
pub mod Coverage
pub mod Shared
use shark_mqtt.Prelude.{
  ℕ, ◌+◌, ◌-◌, ◌%◌, ◌^◌, Bool, true, false, ◌&&◌, Option, none, some, List, [], ◌∷◌, Str, is_some,
  if◌then◌else◌, str_eq,
}
use shark_mqtt.Prelude.Map.{Map, lookup, insert, delete}
use shark_mqtt.Protocol.Topic.{split_topic, validate_topic_filter}
use shark_mqtt.Trie.{Node, nil, find, put, remove, no_children, or_new}

-- `subscribers` (client id to QoS) is the value, `children` the forest.
abbrev pub TopicNode : Type 0
TopicNode = Node (Map Str ℕ)

pub record TopicTree : Type 0 where
  pub root : TopicNode
  pub total_subs : ℕ
  -- share name, topic filter, client id, QoS
  pub shared_subs : Map Str (Map Str (Map Str ℕ))
  -- share name, the client selected last
  pub shared_last : Map Str Str

unfoldable pub new_topic_tree : TopicTree
new_topic_tree = record {
  root = record { value = []; children = nil };
  total_subs = 0;
  shared_subs = [];
  shared_last = [];
}

-- `totalSubs.Add(1)` and `totalSubs.Add(-1)` on an int64.
abbrev pub add_one : ℕ → ℕ
add_one n = (n + 1) % 2 ^ 64

abbrev pub sub_one : ℕ → ℕ
sub_one n = (n + (2 ^ 64 - 1)) % 2 ^ 64

abbrev pub no_entries {ℓ} : {A : Type ℓ} → List A → Bool
no_entries [] = true
no_entries (_ ∷ _) = false

-- The list is `parts[depth:]`, the number is `totalSubs`.
unfoldable pub subscribe_node : List Str → Str → ℕ → TopicNode → ℕ → TopicNode × ℕ
subscribe_node [] client qos n total = (
  record n { value = insert client qos n.value },
  if is_some (lookup client n.value) then total else add_one total,
)
subscribe_node (part ∷ parts) client qos n total =
    let (child, total') =
      subscribe_node parts client qos (or_new [] (find part n.children)) total in
    (record n { children = put part child n.children }, total')

unfoldable pub subscribe : Str → Str → ℕ → TopicTree → TopicTree × Bool
subscribe topic client qos t =
    if validate_topic_filter topic
    then (let (root, total) = subscribe_node (split_topic topic) client qos t.root t.total_subs in
        (record t { root = root; total_subs = total }, true))
    else (t, false)

unfoldable pub subscribe_system : Str → Str → ℕ → TopicTree → TopicTree × Bool
subscribe_system topic client qos t =
    if validate_topic_filter topic
    then (let (root, total) = subscribe_node (split_topic topic) client qos t.root t.total_subs in
        (record t { root = root; total_subs = total }, true))
    else (t, false)

-- The rest of `unsubscribeNode` once the child is known to exist and its call has returned.
abbrev pub after_child : Str → TopicNode → TopicNode × ℕ × Bool → TopicNode × ℕ × Bool
after_child part n (child, total, emptied) =
    let children = (if emptied then remove part n.children else put part child n.children) in
    (record n { children = children }, total, no_entries n.value && no_children children)

unfoldable pub unsubscribe_node : List Str → Str → TopicNode → ℕ → TopicNode × ℕ × Bool
unsubscribe_node [] client n total =
    let subscribers = delete client n.value in
    (
      record n { value = subscribers },
      if is_some (lookup client n.value) then sub_one total else total,
      no_entries subscribers && no_children n.children,
    )
unsubscribe_node (part ∷ parts) client n total = elim (find part n.children) [
  | none ↦ (n, total, false)
  | some child ↦ after_child part n (unsubscribe_node parts client child total)
]

unfoldable pub unsubscribe : Str → Str → TopicTree → TopicTree
unsubscribe topic client t =
    let (root, total, _) = unsubscribe_node (split_topic topic) client t.root t.total_subs in
    record t { root = root; total_subs = total }
