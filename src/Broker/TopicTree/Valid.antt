-- ===== src/Broker/TopicTree/Valid.antt =====
-- The invariant of the subscription trie: a node maps each client once and each level once.
use shark_mqtt.Prelude.{
  ℕ, Bool, true, false, Option, none, some, List, [], ◌∷◌, Str, Bool-cases, inl, inr, WhenSome,
  str_eq,
}
use shark_mqtt.Prelude.Map.{NodupKeys, insert-NodupKeys, delete-NodupKeys}
use shark_mqtt.Protocol.Topic.{split_topic, validate_topic_filter}
use shark_mqtt.Trie.{find, or_new}
use shark_mqtt.Trie.Laws.{IsNode, find-IsNode, put-IsForest, remove-IsForest}
use shark_mqtt.Broker.TopicTree.{
  TopicNode, TopicTree, new_topic_tree, subscribe_node, subscribe, unsubscribe_node, after_child,
  unsubscribe,
}

abbrev pub IsTopicNode : TopicNode → Type 0
IsTopicNode = IsNode NodupKeys

abbrev pub IsTree : TopicTree → Type 0
IsTree t = IsTopicNode t.root

or_new-IsNode : (o : Option TopicNode) → WhenSome IsTopicNode o → IsTopicNode (or_new [] o)
or_new-IsNode none h = (tt, tt)
or_new-IsNode (some n) h = h

subscribe_node-IsNode :
    (fs : List Str) (c : Str) (q : ℕ) (n : TopicNode) (total : ℕ)
    → IsTopicNode n
    → IsTopicNode (subscribe_node fs c q n total).0
unfolding subscribe_node
subscribe_node-IsNode [] c q n total h = (insert-NodupKeys c q n.value h.0, h.1)
subscribe_node-IsNode (f ∷ fs) c q n total h =
    let child = or_new [] (find f n.children) in
    let ok = or_new-IsNode (find f n.children) (find-IsNode NodupKeys f n.children h.1) in
    (
      h.0,
      put-IsForest NodupKeys f (subscribe_node fs c q child total).0 n.children
          (subscribe_node-IsNode fs c q child total ok) h.1,
    )

after_child-IsNode :
    (f : Str) (n child : TopicNode) (total : ℕ) (emptied : Bool)
    → IsTopicNode n
    → IsTopicNode child
    → IsTopicNode (after_child f n (child, total, emptied)).0
after_child-IsNode f n child total true h hc = (h.0, remove-IsForest NodupKeys f n.children h.1)
after_child-IsNode f n child total false h hc =
    (h.0, put-IsForest NodupKeys f child n.children hc h.1)

unsubscribe_node-IsNode :
    (fs : List Str) (c : Str) (n : TopicNode) (total : ℕ)
    → IsTopicNode n
    → IsTopicNode (unsubscribe_node fs c n total).0
unfolding unsubscribe_node
unsubscribe_node-IsNode [] c n total h = (delete-NodupKeys c n.value h.0, h.1)
unsubscribe_node-IsNode (f ∷ fs) c n total h =
    go (find f n.children) (find-IsNode NodupKeys f n.children h.1)
      (λ child ok. unsubscribe_node-IsNode fs c child total ok)
  where
    go :
        (o : Option TopicNode)
        → WhenSome IsTopicNode o
        → ((child : TopicNode)
            → IsTopicNode child
            → IsTopicNode (unsubscribe_node fs c child total).0)
        → IsTopicNode (
            let r : TopicNode × ℕ × Bool = elim o [
              | none ↦ (n, total, false)
              | some child ↦ after_child f n (unsubscribe_node fs c child total)
            ] in
            r.0)
    go none ok ih = h
    go (some child) ok ih =
        let (child', total', emptied) = unsubscribe_node fs c child total in
        after_child-IsNode f n child' total' emptied h (ih child ok)

pub new_topic_tree-IsTree : IsTree new_topic_tree
unfolding new_topic_tree
new_topic_tree-IsTree = (tt, tt)

pub subscribe-IsTree : (f c : Str) (q : ℕ) (t : TopicTree) → IsTree t → IsTree (subscribe f c q t).0
unfolding subscribe
subscribe-IsTree f c q t h = elim (Bool-cases (validate_topic_filter f)) [
  | inl e ↦ rw e (subscribe_node-IsNode (split_topic f) c q t.root t.total_subs h)
  | inr e ↦ rw e h
]

pub unsubscribe-IsTree : (f c : Str) (t : TopicTree) → IsTree t → IsTree (unsubscribe f c t)
unfolding unsubscribe
unsubscribe-IsTree f c t h = unsubscribe_node-IsNode (split_topic f) c t.root t.total_subs h
