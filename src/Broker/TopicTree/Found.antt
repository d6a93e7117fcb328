-- ===== src/Broker/TopicTree/Found.antt =====
-- The matching half of broker/topic_tree.go: the results of `Match`, with the map `visited` that
-- keeps one entry a client at the highest QoS.
use shark_mqtt.Prelude.{
  ℕ, ◌+◌, Bool, true, false, not, ◌&&◌, ◌||◌, Option, none, some, List, [], ◌∷◌, ◌++◌, Str, ltb,
  ◌==◌, nat_eq, str_eq, if◌then◌else◌,
}
use shark_mqtt.Prelude.Map.{Map, lookup, insert}
use shark_mqtt.Protocol.Topic.{hash, plus, is_system, split_topic}
use shark_mqtt.Trie.{Forest, nil, cons, find}
use shark_mqtt.Broker.TopicTree.{TopicNode, TopicTree}

pub record Subscriber : Type 0 where
  pub client_id : Str
  pub qos : ℕ

pub record Found : Type 0 where
  pub results : List Subscriber
  pub visited : Map Str ℕ

-- The loop that raises the QoS of a client's entry; it returns at the first one.
unfoldable pub raise_qos : Str → ℕ → List Subscriber → List Subscriber
raise_qos client qos [] = []
raise_qos client qos (s ∷ results) =
    if s.client_id == client
    then record s { qos = qos } ∷ results
    else s ∷ raise_qos client qos results

-- `old, ok := visited[clientID]`, and the two branches of `addSubscriber`.
abbrev pub add_found : Option ℕ → Str → ℕ → Found → Found
add_found none client qos f = record {
  results = f.results ++ record { client_id = client; qos = qos } ∷ [];
  visited = insert client qos f.visited;
}
add_found (some old) client qos f =
    if ltb old qos
    then record { results = raise_qos client qos f.results; visited = insert client qos f.visited }
    else f

unfoldable pub add_subscriber : Str → ℕ → Found → Found
add_subscriber client qos f = add_found (lookup client f.visited) client qos f

unfoldable pub add_subscribers : Map Str ℕ → Found → Found
add_subscribers [] f = f
add_subscribers ((client, qos) ∷ subscribers) f =
    add_subscribers subscribers (add_subscriber client qos f)

-- `collectAllSubscribers` of each node of a forest.
unfoldable pub collect_children : Forest (Map Str ℕ) → Found → Found
collect_children nil f = f
collect_children (cons _ subscribers kids rest) f =
    collect_children rest (collect_children kids (add_subscribers subscribers f))

unfoldable pub collect_all_subscribers : TopicNode → Found → Found
collect_all_subscribers n f = collect_children n.children (add_subscribers n.value f)

-- `if child, exists := node.children[...]; exists { visit(child) }`
abbrev pub on_child : Option TopicNode → (TopicNode → Found → Found) → Found → Found
on_child none visit f = f
on_child (some child) visit f = visit child f

-- What `matchNodeWithSys` does before it looks at the next part.
unfoldable pub enter : Bool → TopicNode → Found → Found
enter wildcards n f =
    let own = add_subscribers n.value f in
    if wildcards then on_child (find hash n.children) collect_all_subscribers own else own

-- The list is `parts[depth:]`.
unfoldable pub match_node : List Str → ℕ → Bool → Bool → TopicNode → Found → Found
match_node [] depth system wildcards n f = enter wildcards n f
match_node (part ∷ parts) depth system wildcards n f =
    let next = wildcards || (system && depth == 0 && is_system part) in
    let exact =
      on_child (find part n.children) (match_node parts (depth + 1) system next)
        (enter wildcards n f) in
    elim wildcards [
      | true ↦ on_child (find plus n.children) (match_node parts (depth + 1) system true) exact
      | false ↦ exact
    ]

abbrev pub is_system_topic : List Str → Bool
is_system_topic [] = false
is_system_topic (part ∷ _) = is_system part

abbrev pub nothing_found : Found
nothing_found = record { results = []; visited = [] }

unfoldable pub match_topics : Str → TopicTree → Found
match_topics topic t =
    let parts = split_topic topic in
    let system = is_system_topic parts in
    match_node parts 0 system (not system) t.root nothing_found

-- `Match(topic)`
unfoldable pub match : Str → TopicTree → List Subscriber
match topic t = (match_topics topic t).results
