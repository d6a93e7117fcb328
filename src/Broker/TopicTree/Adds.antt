-- ===== src/Broker/TopicTree/Adds.antt =====
-- What a traversal of the subscription trie adds to the results of `Match`.
use shark_mqtt.Prelude.{
  ℕ, ◌≤◌, ◌≡◌, ◌⊎◌, ◌∙◌, refl, sym, Option, none, some, List, [], ◌∷◌, Str, ltb, ◌==◌, str_eq,
  str_beq, str_beq_iff, if◌then◌else◌, arith, Bool-cases, beq_refl, some-eq-some, none-ne-some, inl,
  inr,
}
use shark_mqtt.Prelude.Map.{Map, lookup, lookup-insert, NodupKeys}
use shark_mqtt.Trie.{Forest, nil, cons, find}
use shark_mqtt.Trie.Laws.{IsForest, IsNode}
use shark_mqtt.Broker.TopicTree.{TopicNode}
use shark_mqtt.Broker.TopicTree.Stored.{qos_at, at_child}
use mathlib.Core.Path.{subst}
use shark_mqtt.Broker.TopicTree.Found.{
  Found, add_subscriber, add_subscribers, collect_children, collect_all_subscribers, on_child,
}

-- The client has been found, at this QoS or a higher one.
abbrev pub AtLeast : Str → ℕ → Found → Type 0
AtLeast c q f = (r : ℕ) × (lookup c f.visited ≡ some r) × (q ≤ r)

-- From `f` to `g` exactly the pairs of `P` have been added, the highest QoS kept.
pub record Adds (P : Str → ℕ → Type 0) (f g : Found) : Type 0 where
  pub keeps : (c : Str) (q : ℕ) → lookup c f.visited ≡ some q → AtLeast c q g
  pub complete : (c : Str) (q : ℕ) → P c q → AtLeast c q g
  pub sound :
      (c : Str) (q : ℕ) → lookup c g.visited ≡ some q → (lookup c f.visited ≡ some q) ⊎ P c q

pub Adds-none : (f : Found) → Adds (λ c q. ⊥) f f
Adds-none f = record {
  keeps = λ c q h. (q, h, omega arith);
  complete = λ c q h. absurd h;
  sound = λ c q h. inl h;
}

module _ {P Q : Str → ℕ → Type 0} {f g : Found} where
  pub Adds-cong :
      Adds P f g
      → ((c : Str) (q : ℕ) → P c q → Q c q)
      → ((c : Str) (q : ℕ) → Q c q → P c q)
      → Adds Q f g
  Adds-cong a to from = record {
    keeps = a.keeps;
    complete = λ c q h. a.complete c q (from c q h);
    sound = λ c q h. elim (a.sound c q h) [ inl e ↦ inl e | inr p ↦ inr (to c q p) ];
  }

  pub Adds-seq : {h : Found} → Adds P f g → Adds Q g h → Adds (λ c q. P c q ⊎ Q c q) f h
  Adds-seq {h} a b = record {
    keeps = λ c q e. raise c q (a.keeps c q e);
    complete = λ c q p. elim p [ inl x ↦ raise c q (a.complete c q x) | inr y ↦ b.complete c q y ];
    sound = λ c q e. elim (b.sound c q e) [
      | inl x ↦ elim (a.sound c q x) [ inl y ↦ inl y | inr z ↦ inr (inl z) ]
      | inr y ↦ inr (inr y)
    ];
  }
    where
      raise : (c : Str) (q : ℕ) → AtLeast c q g → AtLeast c q h
      raise c q (r, e, l) = let (s, e', m) = b.keeps c r e in (s, e', omega arith)

abbrev raised : Option ℕ → ℕ → ℕ
raised none q = q
raised (some old) q = if ltb old q then q else old

-- `visited` after one subscriber.
pub lookup-add_subscriber :
    (c d : Str) (q : ℕ) (f : Found)
    → lookup d (add_subscriber c q f).visited
      ≡ (if str_beq c d then some (raised (lookup c f.visited) q) else lookup d f.visited)
unfolding add_subscriber
lookup-add_subscriber c d q f = ground (arith, lookup-insert c d q f.visited, str_beq_iff c d)

module _ (c d : Str) (q r : ℕ) (f : Found) where
  add_subscriber-keeps : lookup d f.visited ≡ some r → AtLeast d r (add_subscriber c q f)
  add_subscriber-keeps h = elim (Bool-cases (str_beq c d)) [
    | inl e ↦
        let same : c ≡ d = (str_beq_iff c d).0 e in
        (raised (lookup c f.visited) q, lookup-add_subscriber c d q f ∙ rw e, ground (arith, same))
    | inr e ↦ (r, lookup-add_subscriber c d q f ∙ rw e h, omega arith)
  ]

  add_subscriber_complete : (d ≡ c) × (r ≡ q) → AtLeast d r (add_subscriber c q f)
  add_subscriber_complete (x, y) = (
    raised (lookup c f.visited) q,
    lookup-add_subscriber c d q f ∙ rw ((str_beq_iff c d).1 (sym x)),
    ground arith,
  )

  add_subscriber_sound :
      lookup d (add_subscriber c q f).visited ≡ some r
      → (lookup d f.visited ≡ some r) ⊎ ((d ≡ c) × (r ≡ q))
  add_subscriber_sound h = ground (arith, lookup-add_subscriber c d q f, str_beq_iff c d)

pub add_subscriber-Adds :
    (c : Str) (q : ℕ) (f : Found) → Adds (λ d r. (d ≡ c) × (r ≡ q)) f (add_subscriber c q f)
add_subscriber-Adds c q f = record {
  keeps = λ d r. add_subscriber-keeps c d q r f;
  complete = λ d r. add_subscriber_complete c d q r f;
  sound = λ d r. add_subscriber_sound c d q r f;
}

-- The loop over a node's subscribers adds what they map each client to.
pub add_subscribers-Adds :
    (m : Map Str ℕ) (f : Found)
    → NodupKeys m
    → Adds (λ c q. lookup c m ≡ some q) f (add_subscribers m f)
unfolding add_subscribers lookup
add_subscribers-Adds [] f h =
    Adds-cong (Adds-none f) (λ c q e. absurd e) (λ c q e. absurd (ground arith))
add_subscribers-Adds ((c, q) ∷ m) f h =
    Adds-cong
      (Adds-seq (add_subscriber-Adds c q f) (add_subscribers-Adds m (add_subscriber c q f) h.1))
      (λ d r e. ground (arith, h.0, str_beq_iff c d))
      (λ d r e. ground (arith, h.0, str_beq_iff c d))

-- The subscriptions that are stored at some path below a node.
abbrev pub Below : Forest (Map Str ℕ) → Str → ℕ → Type 0
Below t c q = (k : Str) × (ps : List Str) × (at_child (qos_at ps c) (find k t) ≡ some q)

at_or_Below :
    (ps : List Str) (c : Str) (q : ℕ) (n : TopicNode)
    → qos_at ps c n ≡ some q
    → (lookup c n.value ≡ some q) ⊎ Below n.children c q
unfolding qos_at
at_or_Below [] c q n e = inl e
at_or_Below (p ∷ ps) c q n e = inr (p, ps, e)

-- What is below the children of a node: in the first child, in its subtree, in the others.
module _ (k : Str) (subscribers : Map Str ℕ) (kids rest : Forest (Map Str ℕ)) (c : Str)
    (q : ℕ) where
  Below-cons :
      find k rest ≡ none
      → ((lookup c subscribers ≡ some q) ⊎ Below kids c q) ⊎ Below rest c q
      → Below (cons k subscribers kids rest) c q
  unfolding find qos_at
  Below-cons h (inl (inl e)) = (k, [], rw (beq_refl k) e)
  Below-cons h (inl (inr (j, ps, e))) = (k, j ∷ ps, rw (beq_refl k) e)
  Below-cons h (inr (j, ps, e)) = (j, ps, ground (arith, str_beq_iff k j))

  Below-cons_inv :
      Below (cons k subscribers kids rest) c q
      → ((lookup c subscribers ≡ some q) ⊎ Below kids c q) ⊎ Below rest c q
  unfolding find
  Below-cons_inv (j, ps, e) = elim (Bool-cases (k == j)) [
    | inl b ↦ inl (at_or_Below ps c q _ (rw b at e))
    | inr b ↦ inr (j, ps, rw b at e)
  ]

-- Visiting the subtrees of a node's children adds what is stored below the node.
pub collect_children-Adds :
    (t : Forest (Map Str ℕ)) (f : Found)
    → IsForest NodupKeys t
    → Adds (Below t) f (collect_children t f)
unfolding collect_children
collect_children-Adds nil f h =
    Adds-cong (Adds-none f) (λ c q e. absurd e) (λ c q e. not_below_nil c q e)
  where
    not_below_nil : (c : Str) (q : ℕ) → Below nil c q → ⊥
    not_below_nil c q (k, ps, e) = unfold find in none-ne-some e
collect_children-Adds (cons k subscribers kids rest) f h =
    let own = add_subscribers subscribers f in
    Adds-cong
      (Adds-seq
        (Adds-seq (add_subscribers-Adds subscribers f h.0) (collect_children-Adds kids own h.2))
        (collect_children-Adds rest (collect_children kids own) h.3))
      (λ c q. Below-cons k subscribers kids rest c q h.1)
      (λ c q. Below-cons_inv k subscribers kids rest c q)

-- `collectAllSubscribers` adds what is stored at the node and below.
pub collect_all-Adds :
    (n : TopicNode) (f : Found)
    → IsNode NodupKeys n
    → Adds (λ c q. (ps : List Str) × (qos_at ps c n ≡ some q)) f (collect_all_subscribers n f)
unfolding collect_all_subscribers
collect_all-Adds n f h =
    Adds-cong
      (Adds-seq (add_subscribers-Adds n.value f h.0)
        (collect_children-Adds n.children (add_subscribers n.value f) h.1))
      (λ c q e. to c q e) (λ c q e. at_or_Below e.0 c q n e.1)
  where
    to :
        (c : Str) (q : ℕ)
        → (lookup c n.value ≡ some q) ⊎ Below n.children c q
        → (ps : List Str) × (qos_at ps c n ≡ some q)
    to c q (inl e) = ([], unfold qos_at in e)
    to c q (inr (k, ps, e)) = (k ∷ ps, unfold qos_at in e)

-- A visit of a child that may be missing.
pub on_child-Adds :
    (P : TopicNode → Str → ℕ → Type 0) (o : Option TopicNode) (visit : TopicNode → Found → Found)
    → (f : Found) → ((n : TopicNode) → o ≡ some n → Adds (P n) f (visit n f))
    → Adds (λ c q. (n : TopicNode) × (o ≡ some n) × P n c q) f (on_child o visit f)
on_child-Adds P none visit f h =
    Adds-cong (Adds-none f) (λ c q e. absurd e) (λ c q e. none-ne-some e.1)
on_child-Adds P (some n) visit f h =
    Adds-cong (h n refl) (λ c q e. (n, refl, e))
      (λ c q e. subst (λ m. P m c q) (sym (some-eq-some e.1)) e.2)
