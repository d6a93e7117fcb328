-- ===== src/Store/Memory/Retained.antt =====
-- `MatchRetained` of store/memory/memory.go against the map of the retained messages: the trie is
-- an index of the map, and a search returns what a scan of the map would.
use shark_mqtt.Prelude.{
  ◌≡◌, ◌∙◌, refl, sym, ap, true, none, some, [], ◌∷◌, Str, str_eq, length, if◌then◌else◌, nat_eq,
  ◌==◌, arith, Bool-cases, Option-cases, inl, inr,
}
use shark_mqtt.Prelude.Map.{Map, lookup}
use shark_mqtt.Protocol.Topic.{split_topic, match_levels, match_topic}
use shark_mqtt.Store.Memory.{RetainedMessage, RetainedStore, Matched, get_retained, match_retained}
use shark_mqtt.Store.Memory.Index.{stored_at}
use shark_mqtt.Store.Memory.Visits.{InSync, Visits, seen, result_of, Once}
use shark_mqtt.Store.Memory.Hits.{Hit, match_node-Visits}
use shark_mqtt.Store.Memory.Consistent.{IsStore, split_injective}

abbrev Start : Matched
Start = record { result = []; visited = [] }

module _ (pattern : Str) (r : RetainedStore) (h : IsStore r) where
  canonical :
      (m : RetainedMessage)
      → Hit (split_topic pattern) r.index m
      → lookup m.topic r.messages ≡ some m
  canonical m (fs, e, q) =
      sym (h.indexed m.topic) ∙ ap (λ ps. stored_at ps r.index) (h.named fs m e) ∙ e

  -- A message is hit exactly if the pattern matches its topic.
  Hit-matches :
      (t : Str)
      → (m : RetainedMessage) × Hit (split_topic pattern) r.index m × (m.topic ≡ t)
      → match_topic pattern t ≡ true
  unfolding match_topic
  Hit-matches t (m, (fs, e, q), p) =
      ap (λ u. match_levels (split_topic pattern) (split_topic u)) (sym p)
      ∙ ap (match_levels (split_topic pattern)) (h.named fs m e)
      ∙ q

  matches-Hit :
      (t : Str) (m : RetainedMessage)
      → match_topic pattern t ≡ true
      → lookup t r.messages ≡ some m
      → Hit (split_topic pattern) r.index m × (m.topic ≡ t)
  unfolding match_topic
  matches-Hit t m q e =
      let s : stored_at (split_topic t) r.index ≡ some m = h.indexed t ∙ e in
      ((split_topic t, s, q), split_injective m.topic t (h.named (split_topic t) m s))

  found_same :
      (t : Str) (b : Matched)
      → Visits (λ u. lookup u r.messages) (Hit (split_topic pattern) r.index) Start b
      → result_of t b.result ≡ (if match_topic pattern t then lookup t r.messages else none)
  unfolding result_of
  found_same t b v = v'.same t ∙ elim (Bool-cases (seen t b)) [
    | inl s ↦ elim (v.sound t s) [
      | inl e ↦ absurd (ground (arith, e))
      | inr w ↦ rw (s, Hit-matches t w) refl
    ]
    | inr s ↦ rw s (elim (Bool-cases (match_topic pattern t)) [
      | inr q ↦ rw q refl
      | inl q ↦ rw q (elim (Option-cases (lookup t r.messages)) [
        | inl e ↦ sym e
        | inr (m, e) ↦
            let (hit, same) = matches-Hit t m q e in
            absurd (ground (arith, v.complete m hit, same, s))
      ])
    ])
  ]
    where
      v' : InSync (λ u. lookup u r.messages) b
      v' = v.in_sync canonical (record { same = λ u. refl; once = tt })

lookup-empty : (t : Str) (m : Map Str RetainedMessage) → length m == 0 ≡ true → lookup t m ≡ none
unfolding lookup
lookup-empty t [] h = refl
lookup-empty t (e ∷ m) h = absurd (ground arith)

-- A search returns, for every topic, the retained message of that topic if the pattern matches it
-- and nothing otherwise, provided the trie is an index of the map.
pub match_retained_lem :
    (pattern t : Str) (r : RetainedStore)
    → IsStore r
    → result_of t (match_retained pattern r)
      ≡ (if match_topic pattern t then get_retained t r else none)
unfolding match_retained get_retained result_of
match_retained_lem pattern t r h = elim (Bool-cases (length r.messages == 0)) [
  | inl b ↦ rw b (ground (arith, lookup-empty t r.messages b))
  | inr b ↦
      rw b (
        found_same pattern r h t _
          (match_node-Visits _ (split_topic pattern) r.index Start h.nodes))
]

-- A search returns no topic twice, provided the trie is an index of the map.
pub match_retained-Once :
    (pattern : Str) (r : RetainedStore) → IsStore r → Once (match_retained pattern r)
unfolding match_retained result_of
match_retained-Once pattern r h = elim (Bool-cases (length r.messages == 0)) [
  | inl b ↦ rw b tt
  | inr b ↦
      rw b
        ((match_node-Visits _ (split_topic pattern) r.index Start h.nodes).in_sync
          (canonical pattern r h) (record { same = λ u. refl; once = tt })).once
]
