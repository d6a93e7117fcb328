-- ===== src/Store/Memory/Hits.antt =====
-- `match` of store/memory/memory.go visits the messages at the levels that a pattern matches.
use shark_mqtt.Prelude.{
  ◌≡◌, ◌∙◌, refl, ap, true, false, Option, some, List, [], ◌∷◌, Str, str_eq, str_beq_iff, nat_eq,
  ◌==◌, arith, Bool-cases, inl, inr,
}
use shark_mqtt.Protocol.Topic.{hash, plus, match_levels}
use shark_mqtt.Trie.{find}
use shark_mqtt.Trie.Laws.{find-IsNode}
use shark_mqtt.Store.Memory.{RetainedMessage, RetainedTrie, Matched, match_node}
use shark_mqtt.Store.Memory.Index.{stored_at, IsIndex}
use shark_mqtt.Store.Memory.Visits.{Visits, visit-Visits}
use shark_mqtt.Store.Memory.Walk.{
  AtSome, Visits-cong, Somewhere, at_child_inv, collect_all-Visits, each_child-Visits,
  on_child-Visits,
}

-- The message is stored at levels that the pattern matches.
abbrev pub Hit : List Str → RetainedTrie → RetainedMessage → Type 0
Hit parts n m = (fs : List Str) × (stored_at fs n ≡ some m) × (match_levels parts fs ≡ true)

module _ (n : RetainedTrie) (m : RetainedMessage) where
  Hit-nil : n.value ≡ some m → Hit [] n m
  unfolding stored_at match_levels
  Hit-nil e = ([], e, refl)

  Hit-nil_inv : Hit [] n m → n.value ≡ some m
  unfolding stored_at match_levels
  Hit-nil_inv ([], e, h) = e
  Hit-nil_inv (f ∷ fs, e, h) = absurd (ground arith)

module _ (part : Str) (parts : List Str) (n : RetainedTrie) (m : RetainedMessage) where
  Hit-hash : part == hash ≡ true → Somewhere n m → Hit (part ∷ parts) n m
  unfolding match_levels
  Hit-hash h ([], e) = ([], e, h)
  Hit-hash h (f ∷ fs, e) = (f ∷ fs, e, ground arith)

  Hit-hash_inv : Hit (part ∷ parts) n m → Somewhere n m
  Hit-hash_inv (fs, e, h) = (fs, e)

  Hit-plus :
      part == hash ≡ false
      → part == plus ≡ true
      → AtSome (Hit parts) n.children m
      → Hit (part ∷ parts) n m
  unfolding match_levels stored_at
  Hit-plus b b' (k, c, o, (fs, e, h)) = (k ∷ fs, rw o e, ground arith)

  Hit-plus_inv :
      part == hash ≡ false
      → part == plus ≡ true
      → Hit (part ∷ parts) n m
      → AtSome (Hit parts) n.children m
  unfolding match_levels stored_at
  Hit-plus_inv b b' ([], e, h) = absurd (ground arith)
  Hit-plus_inv b b' (f ∷ fs, e, h) =
      let (c, o, s) = at_child_inv fs f n.children m e in (f, c, o, (fs, s, ground arith))

  Hit-part :
      part == hash ≡ false
      → part == plus ≡ false
      → (c : RetainedTrie) × (find part n.children ≡ some c) × Hit parts c m
      → Hit (part ∷ parts) n m
  unfolding match_levels stored_at
  Hit-part b b' (c, o, (fs, e, h)) = (part ∷ fs, rw o e, ground (arith, str_beq_iff part part))

  Hit-part_inv :
      part == hash ≡ false
      → part == plus ≡ false
      → Hit (part ∷ parts) n m
      → (c : RetainedTrie) × (find part n.children ≡ some c) × Hit parts c m
  unfolding match_levels stored_at
  Hit-part_inv b b' ([], e, h) = absurd (ground arith)
  Hit-part_inv b b' (f ∷ fs, e, h) =
      let same : part ≡ f = ground (arith, str_beq_iff part f) in
      let (c, o, s) = at_child_inv fs f n.children m e in
      (c, ap (λ k. find k n.children) same ∙ o, (fs, s, ground arith))

pub match_node-Visits :
    (canon : Str → Option RetainedMessage) (parts : List Str) (n : RetainedTrie) (a : Matched)
    → IsIndex n
    → Visits canon (Hit parts n) a (match_node parts n a)
unfolding match_node
match_node-Visits canon [] n a h =
    Visits-cong canon (visit-Visits canon n.value a) (Hit-nil n) (Hit-nil_inv n)
match_node-Visits canon (part ∷ parts) n a h = elim (Bool-cases (part == hash)) [
  | inl b ↦ rw b (
      Visits-cong canon (collect_all-Visits canon n a h) (λ m. Hit-hash part parts n m b)
        (Hit-hash_inv part parts n))
  | inr b ↦ rw b (elim (Bool-cases (part == plus)) [
    | inl b' ↦ rw b' (
        Visits-cong canon
          (each_child-Visits canon (Hit parts) (match_node parts) n.children a h.1
            (λ c d. match_node-Visits canon parts c d))
          (λ m. Hit-plus part parts n m b b') (λ m. Hit-plus_inv part parts n m b b'))
    | inr b' ↦ rw b' (
        Visits-cong canon
          (on_child-Visits canon (Hit parts) (match_node parts) (find part n.children) a (λ c o.
            match_node-Visits canon parts c a (rw o at (find-IsNode _ part n.children h.1))))
          (λ m. Hit-part part parts n m b b') (λ m. Hit-part_inv part parts n m b b'))
  ])
]
