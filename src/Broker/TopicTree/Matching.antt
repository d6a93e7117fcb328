-- ===== src/Broker/TopicTree/Matching.antt =====
-- `Match` of broker/topic_tree.go returns the clients that are subscribed to a filter which
-- matches the topic, or a leading part of it, under the `$` protection of MQTT section 4.7.2.
use shark_mqtt.Prelude.{
  ℕ, zero, suc, ◌+◌, ◌≡◌, ◌⊎◌, refl, Bool, true, not, ◌&&◌, ◌||◌, Option, none, some, List, [], ◌∷◌,
  Str, str_eq, str_beq, str_beq_iff, arith, Bool-cases, none-ne-some, inl, inr, take,
}
use shark_mqtt.Prelude.Map.{lookup, NodupKeys}
use shark_mqtt.Protocol.Topic.{hash, plus, is_system, match_levels}
use shark_mqtt.Protocol.Topic.Split.{first}
use shark_mqtt.Trie.{find}
use shark_mqtt.Trie.Laws.{IsNode, find-IsNode}
use shark_mqtt.Broker.TopicTree.{TopicNode}
use shark_mqtt.Broker.TopicTree.Stored.{qos_at, at_child}
use shark_mqtt.Broker.TopicTree.Found.{
  Found, enter, match_node, collect_all_subscribers, is_system_topic,
}
use shark_mqtt.Broker.TopicTree.Adds.{
  Adds, Adds-cong, Adds-seq, add_subscribers-Adds, collect_all-Adds, on_child-Adds,
}

-- The filter of these levels is subscribed to, and matches the first `k` parts.
abbrev pub Hit : List Str → TopicNode → Str → ℕ → Type 0
Hit parts n c q =
    (fs : List Str) × (k : ℕ) × (qos_at fs c n ≡ some q) × (match_levels fs (take k parts) ≡ true)

-- A hit at a child, whatever led to it.
abbrev pub ChildHit : List Str → Option TopicNode → Str → ℕ → Type 0
ChildHit parts o c q = (n : TopicNode) × (o ≡ some n) × Hit parts n c q

abbrev HashHit : Option TopicNode → Str → ℕ → Type 0
HashHit o c q = (n : TopicNode) × (o ≡ some n) × ((ps : List Str) × (qos_at ps c n ≡ some q))

-- The four ways in which a filter below a node goes on.
abbrev Ways : Str → List Str → TopicNode → Str → ℕ → Type 0
Ways part parts n c q =
    (((lookup c n.value ≡ some q) ⊎ HashHit (find hash n.children) c q)
      ⊎ ChildHit parts (find part n.children) c q)
    ⊎ ChildHit parts (find plus n.children) c q

at_child_inv :
    (f : TopicNode → Option ℕ) (o : Option TopicNode) {q : ℕ}
    → at_child f o ≡ some q
    → (n : TopicNode) × (o ≡ some n) × (f n ≡ some q)
at_child_inv f none e = absurd (none-ne-some e)
at_child_inv f (some n) e = (n, refl, e)

pub child_valid :
    (p : Str) (n : TopicNode) {m : TopicNode}
    → IsNode NodupKeys n
    → find p n.children ≡ some m
    → IsNode NodupKeys m
child_valid p n h o = rw o at (find-IsNode NodupKeys p n.children h.1)

module _ (part : Str) (parts : List Str) (n : TopicNode) (c : Str) (q : ℕ) where
  Ways→Hit : Ways part parts n c q → Hit (part ∷ parts) n c q
  unfolding qos_at match_levels
  Ways→Hit (inl (inl (inl e))) = ([], 0, e, refl)
  Ways→Hit (inl (inl (inr (m, o, (ps, e))))) = (hash ∷ ps, 0, rw o e, refl)
  Ways→Hit (inl (inr (m, o, (fs, k, e, h)))) =
      (part ∷ fs, suc k, rw o e, ground (arith, str_beq_iff part part))
  Ways→Hit (inr (m, o, (fs, k, e, h))) = (plus ∷ fs, suc k, rw o e, ground arith)

  Hit→Ways : Hit (part ∷ parts) n c q → Ways part parts n c q
  unfolding qos_at match_levels
  Hit→Ways ([], k, e, h) = inl (inl (inl e))
  Hit→Ways (p ∷ fs, zero, e, h) =
      let (m, o, e') = at_child_inv (qos_at fs c) (find p n.children) e in
      inl (inl (inr (m, rw (← (str_beq_iff p hash).0 h) o, (fs, e'))))
  Hit→Ways (p ∷ fs, suc k, e, h) =
      let (m, o, e') = at_child_inv (qos_at fs c) (find p n.children) e in
      elim (Bool-cases (str_beq p hash)) [
        | inl b ↦ inl (inl (inr (m, rw (← (str_beq_iff p hash).0 b) o, (fs, e'))))
        | inr b ↦ elim (Bool-cases (str_beq p plus)) [
          | inl b' ↦ inr (m, rw (← (str_beq_iff p plus).0 b') o, (fs, k, e', ground arith))
          | inr b' ↦
              inl
                (inr (m, rw (← (str_beq_iff p part).0 (ground arith)) o, (fs, k, e', ground arith)))
        ]
      ]

module _ (c : Str) (q : ℕ) (n : TopicNode) where
  Hit-nil : (lookup c n.value ≡ some q) ⊎ HashHit (find hash n.children) c q → Hit [] n c q
  unfolding qos_at match_levels
  Hit-nil (inl e) = ([], 0, e, refl)
  Hit-nil (inr (m, o, (ps, e))) = (hash ∷ ps, 0, rw o e, refl)

  no_parts : (k : ℕ) → take {A = Str} k [] ≡ []
  no_parts zero = refl
  no_parts (suc k) = refl

  Hit-nil_inv : Hit [] n c q → (lookup c n.value ≡ some q) ⊎ HashHit (find hash n.children) c q
  unfolding qos_at match_levels
  Hit-nil_inv ([], k, e, h) = inl e
  Hit-nil_inv (p ∷ fs, k, e, h) =
      let (m, o, e') = at_child_inv (qos_at fs c) (find p n.children) e in
      let last : match_levels (p ∷ fs) [] ≡ true = rw (no_parts k) at h in
      inr (m, rw (← (str_beq_iff p hash).0 last) o, (fs, e'))

-- Entering a node adds its own clients, and those below its "#" child if wildcards are allowed.
enter-Adds :
    (n : TopicNode) (f : Found)
    → IsNode NodupKeys n
    → Adds
        (λ c q. (lookup c n.value ≡ some q) ⊎ HashHit (find hash n.children) c q)
        f
        (enter true n f)
unfolding enter
enter-Adds n f h = Adds-seq (add_subscribers-Adds n.value f h.0) (
    on_child-Adds (λ m c q. (ps : List Str) × (qos_at ps c m ≡ some q)) (find hash n.children)
      collect_all_subscribers _ (λ m o. collect_all-Adds m _ (child_valid hash n h o)))

-- Where wildcards are allowed, `matchNodeWithSys` adds the hits.
pub match_node-Adds :
    (parts : List Str) (depth : ℕ) (system : Bool) (n : TopicNode) (f : Found)
    → IsNode NodupKeys n
    → Adds (Hit parts n) f (match_node parts depth system true n f)
unfolding match_node
match_node-Adds [] depth system n f h =
    Adds-cong (enter-Adds n f h) (λ c q. Hit-nil c q n) (λ c q. Hit-nil_inv c q n)
match_node-Adds (part ∷ parts) depth system n f h =
    Adds-cong
      (Adds-seq
        (Adds-seq (enter-Adds n f h) (
          on_child-Adds (Hit parts) (find part n.children)
            (match_node parts (depth + 1) system true) _
            (λ m o. match_node-Adds parts (depth + 1) system m _ (child_valid part n h o))))
        (on_child-Adds (Hit parts) (find plus n.children) (match_node parts (depth + 1) system true)
          _ (λ m o. match_node-Adds parts (depth + 1) system m _ (child_valid plus n h o))))
      (λ c q. Ways→Hit part parts n c q) (λ c q. Hit→Ways part parts n c q)

-- The `$` protection: a system topic is not matched by a filter that begins with a wildcard.
abbrev pub is_protected : List Str → List Str → Bool
is_protected fs parts =
    is_system_topic parts && (str_beq (first fs) hash || str_beq (first fs) plus)

-- A hit that the protection lets through.
abbrev pub OpenHit : List Str → TopicNode → Str → ℕ → Type 0
OpenHit parts n c q =
    (fs : List Str) × (k : ℕ) × (qos_at fs c n ≡ some q)
    × ((not (is_protected fs parts) && match_levels fs (take k parts)) ≡ true)

module _ (part : Str) (parts : List Str) (n : TopicNode) (c : Str) (q : ℕ)
    (s : is_system part ≡ true) where
  pub system_hit :
      (lookup c n.value ≡ some q) ⊎ ChildHit parts (find part n.children) c q
      → OpenHit (part ∷ parts) n c q
  unfolding qos_at match_levels
  system_hit (inl e) = ([], 0, e, ground arith)
  system_hit (inr (m, o, (fs, k, e, h))) = (
    part ∷ fs,
    suc k,
    rw o e,
    ground (arith, str_beq_iff part hash, str_beq_iff part plus, str_beq_iff part part),
  )

  pub system_hit_inv :
      OpenHit (part ∷ parts) n c q
      → (lookup c n.value ≡ some q) ⊎ ChildHit parts (find part n.children) c q
  unfolding qos_at match_levels
  system_hit_inv ([], k, e, h) = inl e
  system_hit_inv (p ∷ fs, zero, e, h) = absurd (ground arith)
  system_hit_inv (p ∷ fs, suc k, e, h) =
      let (m, o, e') = at_child_inv (qos_at fs c) (find p n.children) e in
      inr (m, rw (← (str_beq_iff p part).0 (ground arith)) o, (fs, k, e', ground arith))
