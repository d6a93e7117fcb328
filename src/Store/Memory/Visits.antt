-- ===== src/Store/Memory/Visits.antt =====
-- What a traversal of the retained trie of store/memory/memory.go adds to the results.
use shark_mqtt.Prelude.{
  ◌≡◌, ◌⊎◌, ◌∙◌, refl, Bool, true, false, Option, none, some, List, [], ◌∷◌, ◌++◌, Str, str_eq,
  str_beq, str_beq_iff, ◌==◌, if◌then◌else◌, arith, Bool-cases, inl, inr, any, beq_refl,
  none-ne-some, some-eq-some,
}
use shark_mqtt.Store.Memory.{RetainedMessage, Matched, visit}

-- The message of a topic among the results.
unfoldable pub result_of : Str → List RetainedMessage → Option RetainedMessage
result_of t [] = none
result_of t (m ∷ ms) = if m.topic == t then some m else result_of t ms

-- No topic is among the results twice.
abbrev pub Once : List RetainedMessage → Type 0
Once [] = Unit
Once (m ∷ ms) = (result_of m.topic ms ≡ none) × Once ms

abbrev pub seen : Str → Matched → Bool
seen t a = any (λ u. u == t) a.visited

-- The results are the messages, as `canon` has them, of the topics that have been visited.
pub record InSync (canon : Str → Option RetainedMessage) (a : Matched) : Type 0 where
  pub same : (t : Str) → result_of t a.result ≡ (if seen t a then canon t else none)
  pub once : Once a.result

result_of-snoc :
    (t : Str) (m : RetainedMessage) (ms : List RetainedMessage)
    → result_of t (ms ++ m ∷ [])
      ≡ elim (result_of t ms) [ none ↦ if m.topic == t then some m else none | some n ↦ some n ]
unfolding result_of
result_of-snoc t m [] = refl
result_of-snoc t m (n ∷ ms) = ground (arith, result_of-snoc t m ms)

Once-snoc :
    (m : RetainedMessage) (ms : List RetainedMessage)
    → result_of m.topic ms ≡ none
    → Once ms
    → Once (ms ++ m ∷ [])
unfolding result_of
Once-snoc m [] h o = (refl, tt)
Once-snoc m (n ∷ ms) h o = (
  result_of-snoc n.topic m ms
      ∙ ground (arith, o.0, str_beq_iff m.topic n.topic, str_beq_iff n.topic m.topic),
  Once-snoc m ms (ground arith) o.1,
)

-- From `a` to `b` exactly the messages of `P` have been visited.
pub record Visits (canon : Str → Option RetainedMessage) (P : RetainedMessage → Type 0)
    (a b : Matched) : Type 0 where
  pub keeps : (t : Str) → seen t a ≡ true → seen t b ≡ true
  pub complete : (m : RetainedMessage) → P m → seen m.topic b ≡ true
  pub sound :
      (t : Str)
      → seen t b ≡ true
      → (seen t a ≡ true) ⊎ ((m : RetainedMessage) × P m × (m.topic ≡ t))
  pub in_sync :
      ((m : RetainedMessage) → P m → canon m.topic ≡ some m) → InSync canon a → InSync canon b

module _ (canon : Str → Option RetainedMessage) where
  pub Visits-none : (a : Matched) → Visits canon (λ m. ⊥) a a
  Visits-none a = record {
    keeps = λ t h. h;
    complete = λ m h. absurd h;
    sound = λ t h. inl h;
    in_sync = λ v h. h;
  }

  visit-InSync :
      (m : RetainedMessage) (a : Matched)
      → seen m.topic a ≡ false
      → canon m.topic ≡ some m
      → InSync canon a
      → InSync canon (record { result = a.result ++ m ∷ []; visited = m.topic ∷ a.visited })
  visit-InSync m a f c h = record {
    same = λ t. result_of-snoc t m a.result ∙ ground (arith, h.same t, str_beq_iff m.topic t, f, c);
    once = Once-snoc m a.result (h.same m.topic ∙ rw f) h.once;
  }

  pub visit-Visits :
      (o : Option RetainedMessage) (a : Matched) → Visits canon (λ m. o ≡ some m) a (visit o a)
  unfolding visit
  visit-Visits none a = record {
    keeps = λ t h. h;
    complete = λ m h. absurd (none-ne-some h);
    sound = λ t h. inl h;
    in_sync = λ v h. h;
  }
  visit-Visits (some m) a = elim (Bool-cases (seen m.topic a)) [
    | inl b ↦ rw b (record {
      keeps = λ t h. h;
      complete = λ n e. ground (arith, some-eq-some e, b);
      sound = λ t h. inl h;
      in_sync = λ v h. h;
    })
    | inr b ↦ rw b (record {
      keeps = λ t h. ground (arith, h);
      complete = λ n e. ground (arith, some-eq-some e, beq_refl m.topic);
      sound = λ t h. elim (Bool-cases (str_beq m.topic t)) [
        | inl q ↦ inr (m, refl, (str_beq_iff m.topic t).0 q)
        | inr q ↦ inl (ground (arith, h, q))
      ];
      in_sync = λ v h. visit-InSync m a b (v m refl) h;
    })
  ]
