-- ===== src/Broker/TopicTree/Stored.antt =====
-- The trie of broker/topic_tree.go as a map from filters and clients to QoS.
use shark_mqtt.Prelude.{
  ℕ, ◌≡◌, refl, sym, ap, ◌∙◌, true, false, ◌&&◌, Option, none, some, List, [], ◌∷◌, Str, ◌==◌,
  str_eq, str_beq, str_beq_iff, levels_beq, levels_beq_iff, if◌then◌else◌, arith, Bool-cases,
  Option-cases, inl, inr,
}
use shark_mqtt.Prelude.Map.{Map, lookup, lookup-insert, lookup-delete}
use shark_mqtt.Protocol.Topic.{split_topic, validate_topic_filter}
use shark_mqtt.Protocol.Topic.Split.{join_levels, join-split}
use shark_mqtt.Trie.{find, no_children, or_new}
use shark_mqtt.Trie.Laws.{find-put, find-remove, find-no_children}
use shark_mqtt.Broker.TopicTree.{
  TopicNode, TopicTree, no_entries, subscribe_node, subscribe, unsubscribe_node, unsubscribe,
}

abbrev pub at_child : (TopicNode → Option ℕ) → Option TopicNode → Option ℕ
at_child f none = none
at_child f (some n) = f n

-- The QoS at which a client is subscribed at a path below a node.
unfoldable pub qos_at : List Str → Str → TopicNode → Option ℕ
qos_at [] c n = lookup c n.value
qos_at (p ∷ ps) c n = at_child (qos_at ps c) (find p n.children)

-- The QoS at which a client is subscribed to a filter.
unfoldable pub subscription : Str → Str → TopicTree → Option ℕ
subscription filter c t = qos_at (split_topic filter) c t.root

qos_at-or_new :
    (ps : List Str) (c : Str) (o : Option TopicNode)
    → qos_at ps c (or_new [] o) ≡ at_child (qos_at ps c) o
unfolding qos_at lookup find
qos_at-or_new [] c none = refl
qos_at-or_new (p ∷ ps) c none = refl
qos_at-or_new ps c (some child) = refl

qos_at-subscribe_node :
    (fs gs : List Str) (c d : Str) (q : ℕ) (n : TopicNode) (total : ℕ)
    → qos_at gs d (subscribe_node fs c q n total).0
      ≡ (if levels_beq fs gs && str_beq c d then some q else qos_at gs d n)
unfolding qos_at subscribe_node
qos_at-subscribe_node [] [] c d q n total = lookup-insert c d q n.value
qos_at-subscribe_node [] (g ∷ gs) c d q n total = refl
qos_at-subscribe_node (f ∷ fs) [] c d q n total = refl
qos_at-subscribe_node (f ∷ fs) (g ∷ gs) c d q n total = ground (
  arith,
  find-put f g (subscribe_node fs c q (or_new [] (find f n.children)) total).0 n.children,
  qos_at-subscribe_node fs gs c d q (or_new [] (find f n.children)) total,
  qos_at-or_new gs d (find f n.children),
  str_beq_iff f g,
)

lookup-no_entries : (c : Str) (m : Map Str ℕ) → no_entries m ≡ true → lookup c m ≡ none
unfolding lookup
lookup-no_entries c [] h = refl
lookup-no_entries c (x ∷ m) h = cc

-- Below a node that is reported empty nothing is stored.
qos_at_empty :
    (gs : List Str) (d : Str) (n : TopicNode)
    → (no_entries n.value && no_children n.children) ≡ true
    → qos_at gs d n ≡ none
unfolding qos_at
qos_at_empty [] d n h = lookup-no_entries d n.value (ground arith)
qos_at_empty (g ∷ gs) d n h = ground (arith, find-no_children g n.children)

emptied_lem :
    (fs : List Str) (c : Str) (n : TopicNode) (total : ℕ)
    → (unsubscribe_node fs c n total).2 ≡ true
    → (no_entries (unsubscribe_node fs c n total).0.value
        && no_children (unsubscribe_node fs c n total).0.children)
      ≡ true
unfolding unsubscribe_node
emptied_lem [] c n total h = h
emptied_lem (f ∷ fs) c n total h = ground arith

qos_at-unsubscribe_node :
    (fs gs : List Str) (c d : Str) (n : TopicNode) (total : ℕ)
    → qos_at gs d (unsubscribe_node fs c n total).0
      ≡ (if levels_beq fs gs && str_beq c d then none else qos_at gs d n)
unfolding qos_at unsubscribe_node
qos_at-unsubscribe_node [] [] c d n total = lookup-delete c d n.value
qos_at-unsubscribe_node [] (g ∷ gs) c d n total = refl
qos_at-unsubscribe_node (f ∷ fs) [] c d n total = ground arith
qos_at-unsubscribe_node (f ∷ fs) (g ∷ gs) c d n total = elim (Option-cases (find f n.children)) [
  | inl e ↦ ground (arith, str_beq_iff f g)
  | inr (child, e) ↦ ground (
    arith,
    find-put f g (unsubscribe_node fs c child total).0 n.children,
    find-remove f g n.children,
    qos_at-unsubscribe_node fs gs c d child total,
    emptied_lem fs c child total,
    qos_at_empty gs d (unsubscribe_node fs c child total).0,
    str_beq_iff f g,
  )
]

-- Filters are equal exactly if their levels are.
split-injective : (f g : Str) → levels_beq (split_topic f) (split_topic g) ≡ (f == g)
split-injective f g = elim (Bool-cases (f == g)) [
  | inl e ↦ rw (e, (str_beq_iff f g).0 e) ((levels_beq_iff (split_topic g) (split_topic g)).1 refl)
  | inr e ↦ elim (Bool-cases (levels_beq (split_topic f) (split_topic g))) [
    | inl l ↦
        let same : f ≡ g =
          sym (join-split f)
          ∙ ap join_levels ((levels_beq_iff (split_topic f) (split_topic g)).0 l)
          ∙ join-split g in
        absurd (ground (arith, (str_beq_iff f g).1 same))
    | inr l ↦ rw (e, l)
  ]
]

-- Subscribing to a valid filter sets the client's QoS there and changes nothing else.
pub subscription-subscribe :
    (f g c d : Str) (q : ℕ) (t : TopicTree)
    → validate_topic_filter f ≡ true
    → ((subscribe f c q t).1 ≡ true)
      × (subscription g d (subscribe f c q t).0
          ≡ (if f == g && c == d then some q else subscription g d t))
unfolding subscription subscribe
subscription-subscribe f g c d q t h = (
  rw h,
  rw (h, ← split-injective f g)
      (qos_at-subscribe_node (split_topic f) (split_topic g) c d q t.root t.total_subs),
)

-- An invalid filter is refused, and the tree stays as it was.
pub subscribe_invalid :
    (f c : Str) (q : ℕ) (t : TopicTree)
    → validate_topic_filter f ≡ false
    → subscribe f c q t ≡ (t, false)
unfolding subscribe
subscribe_invalid f c q t h = rw h

-- Unsubscribing removes the one subscription; pruning the emptied nodes loses no other.
pub subscription-unsubscribe :
    (f g c d : Str) (t : TopicTree)
    → subscription g d (unsubscribe f c t) ≡ (if f == g && c == d then none else subscription g d t)
unfolding subscription unsubscribe
subscription-unsubscribe f g c d t =
    rw (← split-injective f g)
      (qos_at-unsubscribe_node (split_topic f) (split_topic g) c d t.root t.total_subs)
