-- ===== src/Store/Memory/Walk.antt =====
-- `match` of store/memory/memory.go visits the messages whose topics have levels that the pattern
-- matches.
use shark_mqtt.Prelude.{
  ◌≡◌, ◌⊎◌, refl, sym, Option, none, some, List, [], ◌∷◌, Str, str_eq, str_beq_iff, ◌==◌, arith,
  Bool-cases, inl, inr, beq_refl, none-ne-some, some-eq-some,
}
use mathlib.Core.Path.{subst}
use shark_mqtt.Trie.{Forest, nil, cons, find}
use shark_mqtt.Trie.Laws.{IsForest}
use shark_mqtt.Store.Memory.{
  RetainedMessage, RetainedTrie, Matched, visit, collect_children, collect_all, each_child,
  on_child,
}
use shark_mqtt.Store.Memory.Index.{at_child, stored_at, IsIndex}
use shark_mqtt.Store.Memory.Visits.{Visits, Visits-none, visit-Visits}

abbrev Values : Type 0
Values = Forest (Option RetainedMessage)

abbrev NodesIndex : Values → Type 0
NodesIndex = IsForest (λ (_ : Option RetainedMessage). Unit {0})

module _ (canon : Str → Option RetainedMessage) {P Q : RetainedMessage → Type 0}
    {a b : Matched} where
  pub Visits-cong :
      Visits canon P a b
      → ((m : RetainedMessage) → P m → Q m)
      → ((m : RetainedMessage) → Q m → P m)
      → Visits canon Q a b
  Visits-cong v to from = record {
    keeps = v.keeps;
    complete = λ m h. v.complete m (from m h);
    sound = λ t h. elim (v.sound t h) [ inl e ↦ inl e | inr (m, p, e) ↦ inr (m, to m p, e) ];
    in_sync = λ c h. v.in_sync (λ m p. c m (to m p)) h;
  }

  pub Visits-seq :
      {d : Matched} → Visits canon P a b → Visits canon Q b d → Visits canon (λ m. P m ⊎ Q m) a d
  Visits-seq {d} v w = record {
    keeps = λ t h. w.keeps t (v.keeps t h);
    complete = λ m h. elim h [ inl p ↦ w.keeps m.topic (v.complete m p) | inr q ↦ w.complete m q ];
    sound = λ t h. elim (w.sound t h) [
      | inl e ↦ elim (v.sound t e) [ inl e' ↦ inl e' | inr (m, p, e') ↦ inr (m, inl p, e') ]
      | inr (m, q, e) ↦ inr (m, inr q, e)
    ];
    in_sync = λ c h. w.in_sync (λ m q. c m (inr q)) (v.in_sync (λ m p. c m (inl p)) h);
  }

-- What holds of a child that a level leads to.
abbrev pub AtSome : (RetainedTrie → RetainedMessage → Type 0) → Values → RetainedMessage → Type 0
AtSome P t m = (k : Str) × (n : RetainedTrie) × (find k t ≡ some n) × P n m

module _ (P : RetainedTrie → RetainedMessage → Type 0) (k : Str) (value : Option RetainedMessage)
    (kids rest : Values) (m : RetainedMessage) where
  AtSome-cons :
      find k rest ≡ none
      → P (record { value = value; children = kids }) m ⊎ AtSome P rest m
      → AtSome P (cons k value kids rest) m
  unfolding find
  AtSome-cons h (inl p) = (k, _, rw (beq_refl k), p)
  AtSome-cons h (inr (j, n, e, p)) = (j, n, ground (arith, str_beq_iff k j), p)

  AtSome-cons_inv :
      AtSome P (cons k value kids rest) m
      → P (record { value = value; children = kids }) m ⊎ AtSome P rest m
  unfolding find
  AtSome-cons_inv (j, n, e, p) = elim (Bool-cases (k == j)) [
    | inl b ↦ inl (subst (λ x. P x m) (sym (some-eq-some (rw b at e))) p)
    | inr b ↦ inr (j, n, rw b at e, p)
  ]

AtSome-nil :
    (P : RetainedTrie → RetainedMessage → Type 0) (m : RetainedMessage) → AtSome P nil m → ⊥
AtSome-nil P m (k, n, e, p) = unfold find in none-ne-some e

-- Some path below the node leads to the message.
abbrev pub Somewhere : RetainedTrie → RetainedMessage → Type 0
Somewhere n m = (ps : List Str) × (stored_at ps n ≡ some m)

pub at_child_inv :
    (ps : List Str) (p : Str) (t : Values) (m : RetainedMessage)
    → at_child (stored_at ps) (find p t) ≡ some m
    → (n : RetainedTrie) × (find p t ≡ some n) × (stored_at ps n ≡ some m)
at_child_inv ps p t m e = go (find p t) refl e
  where
    go :
        (o : Option RetainedTrie)
        → find p t ≡ o
        → at_child (stored_at ps) o ≡ some m
        → (n : RetainedTrie) × (find p t ≡ some n) × (stored_at ps n ≡ some m)
    go none o e = absurd (none-ne-some e)
    go (some n) o e = (n, o, e)

Somewhere-here :
    (n : RetainedTrie) (m : RetainedMessage)
    → (n.value ≡ some m) ⊎ AtSome Somewhere n.children m
    → Somewhere n m
unfolding stored_at
Somewhere-here n m (inl e) = ([], e)
Somewhere-here n m (inr (k, c, e, (ps, s))) = (k ∷ ps, rw e s)

Somewhere-inv :
    (n : RetainedTrie) (m : RetainedMessage)
    → Somewhere n m
    → (n.value ≡ some m) ⊎ AtSome Somewhere n.children m
unfolding stored_at
Somewhere-inv n m ([], e) = inl e
Somewhere-inv n m (p ∷ ps, e) =
    let (c, o, s) = at_child_inv ps p n.children m e in inr (p, c, o, (ps, s))

module _ (canon : Str → Option RetainedMessage) where
  collect_children-Visits :
      (t : Values) (a : Matched)
      → NodesIndex t
      → Visits canon (AtSome Somewhere t) a (collect_children t a)
  unfolding collect_children
  collect_children-Visits nil a h =
      Visits-cong canon (Visits-none canon a) (λ m e. absurd e) (AtSome-nil Somewhere)
  collect_children-Visits (cons k value kids rest) a h =
      Visits-cong canon
        (Visits-seq canon
          (Visits-cong canon
            (Visits-seq canon (visit-Visits canon value a)
              (collect_children-Visits kids (visit value a) h.2))
            (λ m. Somewhere-here (record { value = value; children = kids }) m)
            (λ m. Somewhere-inv (record { value = value; children = kids }) m))
          (collect_children-Visits rest (collect_children kids (visit value a)) h.3))
        (λ m. AtSome-cons Somewhere k value kids rest m h.1)
        (λ m. AtSome-cons_inv Somewhere k value kids rest m)

  pub collect_all-Visits :
      (n : RetainedTrie) (a : Matched) → IsIndex n → Visits canon (Somewhere n) a (collect_all n a)
  unfolding collect_all
  collect_all-Visits n a h =
      Visits-cong canon
        (Visits-seq canon (visit-Visits canon n.value a)
          (collect_children-Visits n.children (visit n.value a) h.1))
        (Somewhere-here n) (Somewhere-inv n)

  pub each_child-Visits :
      (P : RetainedTrie → RetainedMessage → Type 0) (f : RetainedTrie → Matched → Matched)
      (t : Values)
      → (a : Matched) → NodesIndex t
      → ((n : RetainedTrie) (b : Matched) → IsIndex n → Visits canon (P n) b (f n b))
      → Visits canon (AtSome P t) a (each_child f t a)
  unfolding each_child
  each_child-Visits P f nil a h v =
      Visits-cong canon (Visits-none canon a) (λ m e. absurd e) (AtSome-nil P)
  each_child-Visits P f (cons k value kids rest) a h v =
      let n : RetainedTrie = record { value = value; children = kids } in
      Visits-cong canon
        (Visits-seq canon (v n a (tt, h.2)) (each_child-Visits P f rest (f n a) h.3 v))
        (λ m. AtSome-cons P k value kids rest m h.1) (λ m. AtSome-cons_inv P k value kids rest m)

  pub on_child-Visits :
      (P : RetainedTrie → RetainedMessage → Type 0) (f : RetainedTrie → Matched → Matched)
      → (o : Option RetainedTrie) (a : Matched)
      → ((n : RetainedTrie) → o ≡ some n → Visits canon (P n) a (f n a))
      → Visits canon (λ m. (n : RetainedTrie) × (o ≡ some n) × P n m) a (on_child o f a)
  on_child-Visits P f none a v =
      Visits-cong canon (Visits-none canon a) (λ m e. absurd e) (λ m e. none-ne-some e.1)
  on_child-Visits P f (some n) a v =
      Visits-cong canon (v n refl) (λ m e. (n, refl, e))
        (λ m e. subst (λ x. P x m) (sym (some-eq-some e.1)) e.2)
