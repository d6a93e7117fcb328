-- ===== src/Broker/TopicTree/Pruned.antt =====
-- No dead branches in the subscription trie of broker/topic_tree.go: `unsubscribeNode` removes a node
-- with its last use.
use shark_mqtt.Prelude.{
  ℕ, ◌≡◌, refl, Bool, true, false, ◌&&◌, Option, none, some, List, [], ◌∷◌, Str, ◌==◌, str_eq,
  beq_refl, arith, Bool-cases, inl, inr, WhenSome,
}
use shark_mqtt.Prelude.Map.{Map, lookup, insert}
use shark_mqtt.Protocol.Topic.{split_topic, validate_topic_filter}
use shark_mqtt.Trie.{Forest, nil, cons, find, put, remove, no_children, or_new}
use shark_mqtt.Broker.TopicTree.{
  TopicNode, TopicTree, no_entries, new_topic_tree, subscribe_node, subscribe, subscribe_system,
  unsubscribe_node, after_child, unsubscribe,
}
use shark_mqtt.Broker.TopicTree.Stored.{qos_at}

-- A node without a subscriber and without a child.
abbrev pub is_dead : TopicNode → Bool
is_dead n = no_entries n.value && no_children n.children

-- None of the nodes of a forest is dead.
abbrev pub IsUsed : Forest (Map Str ℕ) → Type 0
IsUsed nil = Unit
IsUsed (cons k m kids rest) =
    ((no_entries m && no_children kids) ≡ false) × IsUsed kids × IsUsed rest

abbrev pub IsUsedNode : TopicNode → Type 0
IsUsedNode n = (is_dead n ≡ false) × IsUsed n.children

abbrev pub IsPruned : TopicTree → Type 0
IsPruned t = IsUsed t.root.children

find-IsUsed : (k : Str) (c : Forest (Map Str ℕ)) → IsUsed c → WhenSome IsUsedNode (find k c)
unfolding find
find-IsUsed k nil h = tt
find-IsUsed k (cons j m kids rest) h = elim (Bool-cases (j == k)) [
  | inl e ↦ rw e (h.0, h.1)
  | inr e ↦ rw e (find-IsUsed k rest h.2)
]

put-IsUsed :
    (k : Str) (n : TopicNode) (c : Forest (Map Str ℕ))
    → IsUsedNode n
    → IsUsed c
    → IsUsed (put k n c)
unfolding put
put-IsUsed k n nil hn h = (hn.0, hn.1, tt)
put-IsUsed k n (cons j m kids rest) hn h = elim (Bool-cases (j == k)) [
  | inl e ↦ rw e (hn.0, hn.1, h.2)
  | inr e ↦ rw e (h.0, h.1, put-IsUsed k n rest hn h.2)
]

remove-IsUsed : (k : Str) (c : Forest (Map Str ℕ)) → IsUsed c → IsUsed (remove k c)
unfolding remove
remove-IsUsed k nil h = h
remove-IsUsed k (cons j m kids rest) h = elim (Bool-cases (j == k)) [
  | inl e ↦ rw e (remove-IsUsed k rest h.2)
  | inr e ↦ rw e (h.0, h.1, remove-IsUsed k rest h.2)
]

no_children-put :
    (k : Str) (n : TopicNode) (c : Forest (Map Str ℕ)) → no_children (put k n c) ≡ false
unfolding put
no_children-put k n nil = refl
no_children-put k n (cons j m kids rest) = ground arith

no_entries-insert : (c : Str) (q : ℕ) (m : Map Str ℕ) → no_entries (insert c q m) ≡ false
unfolding insert
no_entries-insert c q [] = refl
no_entries-insert c q (x ∷ m) = ground arith

or_new-IsUsed : (o : Option TopicNode) → WhenSome IsUsedNode o → IsUsed ((or_new [] o).children)
or_new-IsUsed none h = tt
or_new-IsUsed (some n) h = h.1

subscribe_node-IsUsed :
    (fs : List Str) (c : Str) (q : ℕ) (n : TopicNode) (total : ℕ)
    → IsUsed n.children
    → IsUsedNode (subscribe_node fs c q n total).0
unfolding subscribe_node
subscribe_node-IsUsed [] c q n total h = (ground (arith, no_entries-insert c q n.value), h)
subscribe_node-IsUsed (f ∷ fs) c q n total h =
    let child = or_new [] (find f n.children) in
    let ok = or_new-IsUsed (find f n.children) (find-IsUsed f n.children h) in
    let made = (subscribe_node fs c q child total).0 in
    (
      ground (arith, no_children-put f made n.children),
      put-IsUsed f made n.children (subscribe_node-IsUsed fs c q child total ok) h,
    )

-- What a call on a node leaves, and what it reports of it.
abbrev Leaves : TopicNode → TopicNode × ℕ × Bool → Type 0
Leaves n r = IsUsed r.0.children × (is_dead n ≡ false → r.2 ≡ false → is_dead r.0 ≡ false)

after_child-Leaves :
    (f : Str) (n child child' : TopicNode) (total : ℕ) (emptied : Bool)
    → IsUsed n.children
    → IsUsedNode child
    → Leaves child (child', total, emptied)
    → Leaves n (after_child f n (child', total, emptied))
after_child-Leaves f n child child' total true h hc l = (remove-IsUsed f n.children h, λ _ e. e)
after_child-Leaves f n child child' total false h hc l =
    (put-IsUsed f child' n.children (l.1 hc.0 refl, l.0) h, λ _ e. e)

unsubscribe_node-Leaves :
    (fs : List Str) (c : Str) (n : TopicNode) (total : ℕ)
    → IsUsed n.children
    → Leaves n (unsubscribe_node fs c n total)
unfolding unsubscribe_node
unsubscribe_node-Leaves [] c n total h = (h, λ _ e. e)
unsubscribe_node-Leaves (f ∷ fs) c n total h =
    go (find f n.children) (find-IsUsed f n.children h)
      (λ child ok. unsubscribe_node-Leaves fs c child total ok)
  where
    go :
        (o : Option TopicNode)
        → WhenSome IsUsedNode o
        → ((child : TopicNode)
            → IsUsed child.children
            → Leaves child (unsubscribe_node fs c child total))
        → Leaves n (
            let r : TopicNode × ℕ × Bool = elim o [
              | none ↦ (n, total, false)
              | some child ↦ after_child f n (unsubscribe_node fs c child total)
            ] in
            r)
    go none ok ih = (h, λ live _. live)
    go (some child) ok ih =
        let (child', total', emptied) = unsubscribe_node fs c child total in
        after_child-Leaves f n child child' total' emptied h ok (ih child ok.1)

-- The node that a path of levels leads to.
unfoldable pub reach : List Str → TopicNode → Option TopicNode
reach [] n = some n
reach (p ∷ ps) n = elim (find p n.children) [ none ↦ none | some child ↦ reach ps child ]

-- A client is subscribed at the node or below it.
abbrev pub LeadsOn : TopicNode → Type 0
LeadsOn n = (ps : List Str) × (c : Str) × (q : ℕ) × (qos_at ps c n ≡ some q)

leads_on :
    (m : Map Str ℕ) (kids : Forest (Map Str ℕ))
    → (no_entries m && no_children kids) ≡ false
    → IsUsed kids
    → LeadsOn (record { value = m; children = kids })
unfolding qos_at lookup find
leads_on ((c, q) ∷ m) kids live h = ([], c, q, rw (beq_refl c) refl)
leads_on [] nil live h = absurd (ground (arith, live))
leads_on [] (cons k m kids rest) live h =
    let (ps, c, q, e) = leads_on m kids h.0 h.1 in (k ∷ ps, c, q, rw (beq_refl k) e)

reach-IsUsed : (ps : List Str) (n : TopicNode) → IsUsedNode n → WhenSome IsUsedNode (reach ps n)
unfolding reach
reach-IsUsed [] n h = h
reach-IsUsed (p ∷ ps) n h =
    go (find p n.children) (find-IsUsed p n.children h.1) (λ child ok. reach-IsUsed ps child ok)
  where
    go :
        (o : Option TopicNode)
        → WhenSome IsUsedNode o
        → ((child : TopicNode) → IsUsedNode child → WhenSome IsUsedNode (reach ps child))
        → WhenSome IsUsedNode
            (let r : Option TopicNode = elim o [ none ↦ none | some child ↦ reach ps child ] in r)
    go none ok ih = tt
    go (some child) ok ih = ih child ok

below_root :
    (p : Str) (ps : List Str) (t : TopicTree)
    → IsPruned t
    → WhenSome LeadsOn (reach (p ∷ ps) t.root)
unfolding reach
below_root p ps t h = go (find p t.root.children) (find-IsUsed p t.root.children h)
  where
    leads : (o : Option TopicNode) → WhenSome IsUsedNode o → WhenSome LeadsOn o
    leads none ok = tt
    leads (some n) ok = leads_on n.value n.children ok.0 ok.1

    go :
        (o : Option TopicNode)
        → WhenSome IsUsedNode o
        → WhenSome LeadsOn
            (let r : Option TopicNode = elim o [ none ↦ none | some child ↦ reach ps child ] in r)
    go none ok = tt
    go (some child) ok = leads (reach ps child) (reach-IsUsed ps child ok)

-- No node below the root is without a subscriber and a child in the empty tree; subscribing, to a filter
-- that is refused too, and unsubscribing keep this. So after unsubscribing each path of levels that is
-- still there leads on to a subscription.
pub operations-IsPruned :
    (f c : Str) (q : ℕ) (t : TopicTree)
    → IsPruned t
    → IsPruned new_topic_tree
      × IsPruned (subscribe f c q t).0
      × IsPruned (subscribe_system f c q t).0
      × IsPruned (unsubscribe f c t)
      × ((p : Str) (ps : List Str) → WhenSome LeadsOn (reach (p ∷ ps) (unsubscribe f c t).root))
unfolding new_topic_tree subscribe subscribe_system unsubscribe
operations-IsPruned f c q t h =
    let made = subscribe_node-IsUsed (split_topic f) c q t.root t.total_subs h in
    let left = unsubscribe_node-Leaves (split_topic f) c t.root t.total_subs h in
    (
      tt,
      elim (Bool-cases (validate_topic_filter f)) [ inl e ↦ rw e made.1 | inr e ↦ rw e h ],
      elim (Bool-cases (validate_topic_filter f)) [ inl e ↦ rw e made.1 | inr e ↦ rw e h ],
      left.0,
      λ p ps. below_root p ps (unsubscribe f c t) left.0,
    )
