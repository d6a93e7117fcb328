-- ===== src/Broker/TopicTree/Coverage.antt =====
-- Which clients `Match` of broker/topic_tree.go returns, and at which QoS.
use shark_mqtt.Prelude.{
  ℕ, ◌≤◌, ◌≡◌, ◌∙◌, refl, sym, ap, Bool, true, false, not, some, List, [], ◌∷◌, Str, str_eq,
  if◌then◌else◌, arith, none-ne-some, inl, inr, take, length, nat_eq,
}
use shark_mqtt.Prelude.Map.{lookup}
use shark_mqtt.Protocol.Topic.{
  is_system, split_topic, match_levels, match_topic, match_sys_protected,
}
use shark_mqtt.Protocol.Topic.Split.{first, first-split, is_system-first_level}
use shark_mqtt.Trie.{find}
use shark_mqtt.Broker.TopicTree.{TopicNode, TopicTree}
use shark_mqtt.Broker.TopicTree.Valid.{IsTopicNode, IsTree}
use shark_mqtt.Broker.TopicTree.Stored.{subscription}
use shark_mqtt.Broker.TopicTree.Found.{
  Found, enter, match_node, is_system_topic, nothing_found, match_topics, match,
}
use shark_mqtt.Broker.TopicTree.Adds.{
  Adds, Adds-cong, Adds-seq, add_subscribers-Adds, on_child-Adds,
}
use shark_mqtt.Broker.TopicTree.Matching.{
  Hit, OpenHit, is_protected, match_node-Adds, child_valid, system_hit, system_hit_inv,
}
use shark_mqtt.Broker.TopicTree.Results.{result_of, result_of-match}

-- A topic whose first level starts with "$".
system_start :
    (part : Str) (parts : List Str) (n : TopicNode) (f : Found)
    → is_system part ≡ true
    → IsTopicNode n
    → Adds (OpenHit (part ∷ parts) n) f (match_node (part ∷ parts) 0 true false n f)
unfolding match_node enter
system_start part parts n f s h = rw s (
    Adds-cong
      (Adds-seq (add_subscribers-Adds n.value f h.0) (
        on_child-Adds (Hit parts) (find part n.children) (match_node parts 1 true true) _
          (λ m o. match_node-Adds parts 1 true m _ (child_valid part n h o))))
      (λ c q. system_hit part parts n c q s) (λ c q. system_hit_inv part parts n c q s))

start :
    (parts : List Str) (n : TopicNode) (f : Found) (b : Bool)
    → is_system_topic parts ≡ b
    → IsTopicNode n
    → Adds (OpenHit parts n) f (match_node parts 0 b (not b) n f)
start parts n f false e h =
    Adds-cong (match_node-Adds parts 0 false n f h) (λ c q (fs, k, x, m). (fs, k, x, rw e m))
      (λ c q (fs, k, x, m). (fs, k, x, rw e at m))
start [] n f true e h = absurd (ground arith)
start (part ∷ parts) n f true e h = system_start part parts n f e h

match_topics-Adds :
    (topic : Str) (t : TopicTree)
    → IsTree t
    → Adds (OpenHit (split_topic topic) t.root) nothing_found (match_topics topic t)
unfolding match_topics
match_topics-Adds topic t h = start (split_topic topic) t.root nothing_found _ refl h

-- In a tree with the invariant, every client that `Match` returns has, at the QoS that is returned, a
-- subscription whose filter matches the first levels of the topic for some number of them, and that
-- the `$` rule lets through.
pub match_sound :
    (topic c : Str) (q : ℕ) (t : TopicTree)
    → IsTree t
    → result_of c (match topic t) ≡ some q
    → OpenHit (split_topic topic) t.root c q
match_sound topic c q t h e =
    elim ((match_topics-Adds topic t h).sound c q (sym (result_of-match c topic t) ∙ e)) [
      | inl x ↦ absurd (unfold lookup in none-ne-some x)
      | inr x ↦ x
    ]

-- In a tree with the invariant, a subscription that the `$` rule lets through and whose filter matches
-- the first `k` levels of the topic is found, at its QoS or a higher one.
pub match_leading :
    (topic f c : Str) (q k : ℕ) (t : TopicTree)
    → IsTree t
    → subscription f c t ≡ some q
    → is_protected (split_topic f) (split_topic topic) ≡ false
    → match_levels (split_topic f) (take k (split_topic topic)) ≡ true
    → (r : ℕ) × (result_of c (match topic t) ≡ some r) × (q ≤ r)
unfolding subscription
match_leading topic f c q k t h s p m =
    let (r, e, l) = (match_topics-Adds topic t h).complete c q (split_topic f, k, s, rw p m) in
    (r, result_of-match c topic t ∙ e, l)

take-length : (ps : List Str) → take (length ps) ps ≡ ps
take-length [] = refl
take-length (p ∷ ps) = ap (λ qs. p ∷ qs) (take-length ps)

is_system-split : (s : Str) → is_system_topic (split_topic s) ≡ is_system s
is_system-split s = head_system (split_topic s) ∙ rw first-split (is_system-first_level s)
  where
    head_system : (ls : List Str) → is_system_topic ls ≡ is_system (first ls)
    head_system [] = refl
    head_system (l ∷ ls) = refl

-- `matchSysProtected` in levels.
pub match_sys_protected-levels :
    (f topic : Str)
    → match_sys_protected f topic ≡ (
        if is_protected (split_topic f) (split_topic topic)
        then false
        else match_levels (split_topic f) (split_topic topic))
unfolding match_sys_protected match_topic
match_sys_protected-levels f topic = rw (is_system-split, first-split)

-- No subscriber is missed: in a tree with the invariant, a client with a subscription whose filter
-- matches the topic under the `$` protection is found, at that subscription's QoS or a higher one.
pub match_complete :
    (topic f c : Str) (q : ℕ) (t : TopicTree)
    → IsTree t
    → subscription f c t ≡ some q
    → match_sys_protected f topic ≡ true
    → (r : ℕ) × (result_of c (match topic t) ≡ some r) × (q ≤ r)
match_complete topic f c q t h s m =
    match_leading topic f c q (length (split_topic topic)) t h s
      (ground (arith, match_sys_protected-levels f topic))
      (rw take-length (ground (arith, match_sys_protected-levels f topic)))
