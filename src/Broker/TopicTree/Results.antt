-- ===== src/Broker/TopicTree/Results.antt =====
-- What `Match` of broker/topic_tree.go returns, client by client.
use shark_mqtt.Prelude.{
  ℕ, ◌+◌, ◌≡◌, ◌∙◌, refl, sym, ap, Bool, true, false, Option, none, some, List, [], ◌∷◌, ◌++◌, Str,
  ◌==◌, str_eq, str_beq_iff, if◌then◌else◌, arith, Bool-cases, none-ne-some, inl, inr, ltb,
}
use mathlib.Core.Path.{subst}
use shark_mqtt.Prelude.Map.{Map, lookup, insert, NodupKeys, insert-NodupKeys}
use shark_mqtt.Protocol.Topic.{hash, plus, split_topic}
use shark_mqtt.Trie.{find, Forest, nil, cons}
use shark_mqtt.Broker.TopicTree.{TopicNode, TopicTree}
use shark_mqtt.Broker.TopicTree.Found.{
  Subscriber, Found, raise_qos, add_found, add_subscriber, add_subscribers, collect_children,
  collect_all_subscribers, on_child, enter, match_node, nothing_found, match_topics, match,
}

-- The QoS at which a client is among the results.
unfoldable pub result_of : Str → List Subscriber → Option ℕ
result_of c [] = none
result_of c (s ∷ rs) = if s.client_id == c then some s.qos else result_of c rs

-- No client is among the results twice.
abbrev pub Once : List Subscriber → Type 0
Once [] = Unit
Once (s ∷ rs) = (result_of s.client_id rs ≡ none) × Once rs

abbrev pub to_subscribers : Map Str ℕ → List Subscriber
to_subscribers [] = []
to_subscribers ((c, q) ∷ m) = record { client_id = c; qos = q } ∷ to_subscribers m

result_of-to_subscribers : (c : Str) (m : Map Str ℕ) → result_of c (to_subscribers m) ≡ lookup c m
unfolding result_of lookup
result_of-to_subscribers c [] = refl
result_of-to_subscribers c ((d, q) ∷ m) = ground (arith, result_of-to_subscribers c m)

to_subscribers-Once : (m : Map Str ℕ) → NodupKeys m → Once (to_subscribers m)
to_subscribers-Once [] h = tt
to_subscribers-Once ((c, q) ∷ m) h = (result_of-to_subscribers c m ∙ h.0, to_subscribers-Once m h.1)

-- `results` and `visited` hold the same pairs.
pub record InSync (f : Found) : Type 0 where
  pub same : f.results ≡ to_subscribers f.visited
  pub nodup : NodupKeys f.visited

append-insert :
    (c : Str) (q : ℕ) (m : Map Str ℕ)
    → lookup c m ≡ none
    → to_subscribers m ++ record { client_id = c; qos = q } ∷ [] ≡ to_subscribers (insert c q m)
unfolding lookup insert
append-insert c q [] h = refl
append-insert c q ((d, r) ∷ m) h = ground (arith, append-insert c q m)

raise-insert :
    (c : Str) (q old : ℕ) (m : Map Str ℕ)
    → lookup c m ≡ some old
    → raise_qos c q (to_subscribers m) ≡ to_subscribers (insert c q m)
unfolding lookup insert raise_qos
raise-insert c q old [] h = absurd (none-ne-some h)
raise-insert c q old ((d, r) ∷ m) h = ground (arith, raise-insert c q old m, str_beq_iff d c)

add_found-InSync :
    (o : Option ℕ) (c : Str) (q : ℕ) (f : Found)
    → lookup c f.visited ≡ o
    → InSync f
    → InSync (add_found o c q f)
add_found-InSync none c q f e h = record {
  same = rw h.same (append-insert c q f.visited e);
  nodup = insert-NodupKeys c q f.visited h.nodup;
}
add_found-InSync (some old) c q f e h = elim (Bool-cases (ltb old q)) [
  | inl b ↦ rw b (record {
    same = rw h.same (raise-insert c q old f.visited e);
    nodup = insert-NodupKeys c q f.visited h.nodup;
  })
  | inr b ↦ rw b h
]

pub InSync-Once : (f : Found) → InSync f → Once f.results
InSync-Once f h = subst Once (sym h.same) (to_subscribers-Once f.visited h.nodup)

pub result_of-InSync : (c : Str) (f : Found) → InSync f → result_of c f.results ≡ lookup c f.visited
result_of-InSync c f h = ap (result_of c) h.same ∙ result_of-to_subscribers c f.visited

add_subscriber-InSync : (c : Str) (q : ℕ) (f : Found) → InSync f → InSync (add_subscriber c q f)
unfolding add_subscriber
add_subscriber-InSync c q f h = add_found-InSync (lookup c f.visited) c q f refl h

-- The traversals only add subscribers.
pub add_subscribers-InSync : (m : Map Str ℕ) (f : Found) → InSync f → InSync (add_subscribers m f)
unfolding add_subscribers
add_subscribers-InSync [] f h = h
add_subscribers-InSync ((c, q) ∷ m) f h =
    add_subscribers-InSync m (add_subscriber c q f) (add_subscriber-InSync c q f h)

collect_children-InSync :
    (t : Forest (Map Str ℕ)) (f : Found) → InSync f → InSync (collect_children t f)
unfolding collect_children
collect_children-InSync nil f h = h
collect_children-InSync (cons k m kids rest) f h =
    collect_children-InSync rest _
      (collect_children-InSync kids (add_subscribers m f) (add_subscribers-InSync m f h))

on_child-InSync :
    (o : Option TopicNode) (visit : TopicNode → Found → Found) (f : Found)
    → ((n : TopicNode) (g : Found) → InSync g → InSync (visit n g))
    → InSync f
    → InSync (on_child o visit f)
on_child-InSync none visit f v h = h
on_child-InSync (some n) visit f v h = v n f h

enter-InSync : (w : Bool) (n : TopicNode) (f : Found) → InSync f → InSync (enter w n f)
unfolding enter collect_all_subscribers
enter-InSync false n f h = add_subscribers-InSync n.value f h
enter-InSync true n f h =
    on_child-InSync (find hash n.children) collect_all_subscribers (add_subscribers n.value f)
      (λ m g k. collect_children-InSync m.children _ (add_subscribers-InSync m.value g k))
      (add_subscribers-InSync n.value f h)

match_node-InSync :
    (parts : List Str) (depth : ℕ) (system wildcards : Bool) (n : TopicNode) (f : Found)
    → InSync f
    → InSync (match_node parts depth system wildcards n f)
unfolding match_node
match_node-InSync [] depth system w n f h = enter-InSync w n f h
match_node-InSync (part ∷ parts) depth system true n f h =
    on_child-InSync (find plus n.children) (match_node parts (depth + 1) system true) _
      (match_node-InSync parts (depth + 1) system true)
      (on_child-InSync (find part n.children) (match_node parts (depth + 1) system true) _
        (match_node-InSync parts (depth + 1) system true) (enter-InSync true n f h))
match_node-InSync (part ∷ parts) depth system false n f h =
    on_child-InSync (find part n.children) _ _ (match_node-InSync parts (depth + 1) system _)
      (enter-InSync false n f h)

match_topics-InSync : (topic : Str) (t : TopicTree) → InSync (match_topics topic t)
unfolding match_topics
match_topics-InSync topic t =
    match_node-InSync (split_topic topic) 0 _ _ t.root nothing_found
      (record { same = refl; nodup = tt })

-- `Match` returns each client at most once.
pub match-Once : (topic : Str) (t : TopicTree) → Once (match topic t)
unfolding match
match-Once topic t = InSync-Once (match_topics topic t) (match_topics-InSync topic t)

pub result_of-match :
    (c : Str) (topic : Str) (t : TopicTree)
    → result_of c (match topic t) ≡ lookup c (match_topics topic t).visited
unfolding match
result_of-match c topic t = result_of-InSync c (match_topics topic t) (match_topics-InSync topic t)
