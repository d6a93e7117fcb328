-- ===== src/Broker/TopicTree/Count.antt =====
-- The counter `totalSubs` of broker/topic_tree.go against the entries that are stored.
use shark_mqtt.Prelude.{
  ℕ, ◌+◌, ◌-◌, ◌%◌, ◌^◌, ◌≤◌, ◌≡◌, ◌∙◌, refl, ap, Bool, true, false, ◌&&◌, Option, none, some, List,
  [], ◌∷◌, Str, str_eq, length, str_beq_iff, arith, Bool-cases, inl, inr, ◌==◌, WhenSome,
}
use shark_mqtt.Prelude.Map.{Map, delete, NodupKeys, length-insert, length-delete}
use shark_mqtt.Trie.{Forest, nil, cons, find, put, remove, no_children, or_new}
use shark_mqtt.Trie.Laws.{find-IsNode}
use shark_mqtt.Broker.TopicTree.{
  TopicNode, no_entries, subscribe_node, after_child, unsubscribe_node,
}
use shark_mqtt.Broker.TopicTree.Valid.{IsTopicNode}

-- How many entries a trie holds.
unfoldable pub forest_count : Forest (Map Str ℕ) → ℕ
forest_count nil = 0
forest_count (cons k m kids rest) = length m + forest_count kids + forest_count rest

abbrev pub node_count : TopicNode → ℕ
node_count n = length n.value + forest_count n.children

abbrev count_of : Option TopicNode → ℕ
count_of none = 0
count_of (some n) = node_count n

count_put :
    (k : Str) (n : TopicNode) (t : Forest (Map Str ℕ))
    → forest_count (put k n t) + count_of (find k t) ≡ forest_count t + node_count n
unfolding put find forest_count
count_put k n nil = omega arith
count_put k n (cons j m kids rest) = ground (arith, count_put k n rest)

count_find : (k : Str) (t : Forest (Map Str ℕ)) → count_of (find k t) ≤ forest_count t
unfolding find forest_count
count_find k nil = omega arith
count_find k (cons j m kids rest) = ground (arith, count_find k rest)

remove_absent : (k : Str) (t : Forest (Map Str ℕ)) → find k t ≡ none → remove k t ≡ t
unfolding find remove
remove_absent k nil e = refl
remove_absent k (cons j m kids rest) e = ground (arith, remove_absent k rest)

count_remove :
    (k : Str) (t : Forest (Map Str ℕ))
    → IsTopicNode (record { value = []; children = t })
    → forest_count (remove k t) + count_of (find k t) ≡ forest_count t
unfolding find remove forest_count
count_remove k nil h = omega arith
count_remove k (cons j m kids rest) h = elim (Bool-cases (j == k)) [
  | inl e ↦ rw e (rw (remove_absent k rest (rw ((str_beq_iff j k).0 e) at h.1.1)) (omega arith))
  | inr e ↦ rw e (omega (arith, count_remove k rest (tt, h.1.3)))
]

count_or_new : (o : Option TopicNode) → node_count (or_new [] o) ≡ count_of o
unfolding forest_count
count_or_new none = omega arith
count_or_new (some n) = refl

-- The counter agrees with the entries of a node and `others` elsewhere.
abbrev pub Counts : ℕ → ℕ → ℕ → Type 0
Counts total here others = total ≡ (here + others) % 2 ^ 64

pub subscribe_node-Counts :
    (fs : List Str) (c : Str) (q : ℕ) (n : TopicNode) (total others : ℕ)
    → Counts total (node_count n) others
    → Counts (subscribe_node fs c q n total).1 (node_count (subscribe_node fs c q n total).0) others
unfolding subscribe_node
subscribe_node-Counts [] c q n total others h = ground (arith, length-insert c q n.value, h)
subscribe_node-Counts (f ∷ fs) c q n total others h =
    let child = or_new [] (find f n.children) in
    let rest = length n.value + (forest_count n.children - node_count child) + others in
    let small = count_find f n.children in
    let same = count_or_new (find f n.children) in
    let ih =
      subscribe_node-Counts fs c q child total rest
        (h ∙ ap (λ (x : ℕ). x % 2 ^ 64) (omega (arith, small, same))) in
    ih
    ∙ ap (λ (x : ℕ). x % 2 ^ 64)
        (omega (arith, small, same, count_put f (subscribe_node fs c q child total).0 n.children))

none_stored :
    (n : TopicNode) → no_entries n.value && no_children n.children ≡ true → node_count n ≡ 0
none_stored n h = go n.value n.children h
  where
    go :
        (m : Map Str ℕ) (t : Forest (Map Str ℕ))
        → no_entries m && no_children t ≡ true
        → length m + forest_count t ≡ 0
    go [] nil h = unfold forest_count in omega arith
    go [] (cons k m kids rest) h = cc
    go (x ∷ m) t h = cc

-- A child that is reported empty holds no entry.
after_child-Counts :
    (f : Str) (n child : TopicNode) (total others : ℕ) (emptied : Bool)
    → IsTopicNode n
    → (emptied ≡ true → node_count child ≡ 0)
    → Counts total
        (node_count child)
        (length n.value + (forest_count n.children - count_of (find f n.children)) + others)
    → let r = after_child f n (child, total, emptied) in
      Counts r.1 (node_count r.0) others × (r.2 ≡ true → node_count r.0 ≡ 0)
after_child-Counts f n child total others true h z e = (
  e
      ∙ ap (λ (x : ℕ). x % 2 ^ 64)
          (omega (arith, z refl, count_remove f n.children (tt, h.1), count_find f n.children)),
  none_stored (record n { children = remove f n.children }),
)
after_child-Counts f n child total others false h z e = (
  e
      ∙ ap (λ (x : ℕ). x % 2 ^ 64)
          (omega (arith, count_put f child n.children, count_find f n.children)),
  none_stored (record n { children = put f child n.children }),
)

pub unsubscribe_node-Counts :
    (fs : List Str) (c : Str) (n : TopicNode) (total others : ℕ)
    → IsTopicNode n
    → Counts total (node_count n) others
    → let r = unsubscribe_node fs c n total in
      Counts r.1 (node_count r.0) others × (r.2 ≡ true → node_count r.0 ≡ 0)
unfolding unsubscribe_node
unsubscribe_node-Counts [] c n total others h e = (
  ground (arith, length-delete c n.value h.0, e),
  none_stored (record n { value = delete c n.value }),
)
unsubscribe_node-Counts (f ∷ fs) c n total others h e =
    go (find f n.children) refl (find-IsNode NodupKeys f n.children h.1) (λ child ok.
      unsubscribe_node-Counts fs c child total
        (length n.value + (forest_count n.children - node_count child) + others) ok)
  where
    go :
        (o : Option TopicNode)
        → find f n.children ≡ o
        → WhenSome IsTopicNode o
        → ((child : TopicNode)
            → IsTopicNode child
            → Counts total
                (node_count child)
                (length n.value + (forest_count n.children - node_count child) + others)
            → let r = unsubscribe_node fs c child total in
              Counts r.1
                (node_count r.0)
                (length n.value + (forest_count n.children - node_count child) + others)
              × (r.2 ≡ true → node_count r.0 ≡ 0))
        → let r : TopicNode × ℕ × Bool = elim o [
          | none ↦ (n, total, false)
          | some child ↦ after_child f n (unsubscribe_node fs c child total)
        ] in
          Counts r.1 (node_count r.0) others × (r.2 ≡ true → node_count r.0 ≡ 0)
    go none k ok ih = (e, λ x. absurd (ground (arith, x)))
    go (some child) k ok ih =
        let small = count_find f n.children in
        let within : node_count child ≤ forest_count n.children = rw k at small in
        let split : node_count n + others
            ≡ node_count child
              + (length n.value + (forest_count n.children - node_count child) + others) =
          omega (arith, within) in
        let (x, y) = ih child ok (e ∙ ap (λ (x : ℕ). x % 2 ^ 64) split) in
        let (child', total', emptied) = unsubscribe_node fs c child total in
        after_child-Counts f n child' total' others emptied h y (rw k x)
