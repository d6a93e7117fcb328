-- ===== src/Broker/Session/Subscriptions/Answers.antt =====
-- What `MatchesSubscription` and `MatchesRetainedSubscription` of broker/session.go answer.
use shark_mqtt.Prelude.{
  ℕ, ◌≡◌, ◌⊎◌, ◌↔◌, ◌∙◌, refl, sym, ap, Bool, true, false, none, some, [], ◌∷◌, Str, ◌==◌, str_eq,
  str_beq_iff, arith, Bool-cases, inl, inr, none-ne-some,
}
use shark_mqtt.Prelude.Map.{Map, lookup, NodupKeys}
use shark_mqtt.Broker.TopicTree.Shared.Order.{str_ltb_trans, str_ltb_irrefl}
use shark_mqtt.Broker.Session.Subscriptions.{
  SubscriptionOptions, zero_options, Subscriptions, options_of, hits, Best, take_match, match_loop,
  no_match, Match, match_subscriptions,
}
use shark_mqtt.Broker.Session.Subscriptions.Sorted.{
  has, IsStrict, compact_identifiers-IsStrict, has-compact_identifiers, IsStrict-unique,
}
use shark_mqtt.Broker.Session.Subscriptions.Winner.{
  Follows, Carried, Tells, no_match-Tells, Tells-cong, take_match-Tells,
}

-- The session has a subscription to the pattern at this QoS, and the pattern matches the topic.
abbrev pub Matching : Bool → Str → Map Str ℕ → Str → ℕ → Type 0
Matching sys topic subs p q = (lookup p subs ≡ some q) × (hits sys topic p ≡ true)

module _ (sys : Bool) (topic : Str) (s : Subscriptions) where
  abbrev opts : Str → SubscriptionOptions
  opts p = options_of p s

  -- What one subscription more adds to those that match.
  Matching-head :
      (k : Str) (r : ℕ) (subs : Map Str ℕ) (p : Str) (q : ℕ)
      → lookup k subs ≡ none
      → hits sys topic k ≡ true
      → ((p ≡ k) × (q ≡ r)) ⊎ Matching sys topic subs p q
      → Matching sys topic ((k, r) ∷ subs) p q
  unfolding lookup
  Matching-head k r subs p q n h (inl (e, f)) = (ground (arith, e, f, str_beq_iff k p), rw e h)
  Matching-head k r subs p q n h (inr (e, f)) = (ground (arith, e, n, str_beq_iff k p), f)

  Matching-tail :
      (k : Str) (r : ℕ) (subs : Map Str ℕ) (p : Str) (q : ℕ)
      → lookup k subs ≡ none
      → Matching sys topic subs p q
      → Matching sys topic ((k, r) ∷ subs) p q
  unfolding lookup
  Matching-tail k r subs p q n (e, f) = (ground (arith, e, n, str_beq_iff k p), f)

  Matching-cons_inv :
      (k : Str) (r : ℕ) (subs : Map Str ℕ) (p : Str) (q : ℕ)
      → Matching sys topic ((k, r) ∷ subs) p q
      → ((p ≡ k) × (q ≡ r) × (hits sys topic k ≡ true)) ⊎ Matching sys topic subs p q
  unfolding lookup
  Matching-cons_inv k r subs p q (e, f) = elim (Bool-cases (k == p)) [
    | inl b ↦
        let same : k ≡ p = (str_beq_iff k p).0 b in inl (sym same, ground (arith, b, e), rw same f)
    | inr b ↦ inr (rw b at e, f)
  ]

  match_loop-Tells :
      (subs : Map Str ℕ) (P : Str → ℕ → Type 0) (b : Best)
      → NodupKeys subs
      → Tells opts P b
      → Tells opts (λ p q. P p q ⊎ Matching sys topic subs p q) (match_loop sys topic s subs b)
  unfolding match_loop lookup
  match_loop-Tells [] P b h t =
      Tells-cong opts t (λ p q x. inl x)
        (λ p q x. elim x [ inl y ↦ y | inr (e, _) ↦ absurd (none-ne-some e) ])
  match_loop-Tells ((k, r) ∷ subs) P b h t = elim (Bool-cases (hits sys topic k)) [
    | inl e ↦
        let more = take_match-Tells opts P k r b t in
        rw e (
          Tells-cong opts (match_loop-Tells subs _ (take_match k r (options_of k s) b) h.1 more)
            (λ p q x. elim x [
              | inl (inl y) ↦ inl y
              | inl (inr y) ↦ inr (Matching-head k r subs p q h.0 e (inl y))
              | inr y ↦ inr (Matching-tail k r subs p q h.0 y)
            ])
            (λ p q x. elim x [
              | inl y ↦ inl (inl y)
              | inr y ↦ elim (Matching-cons_inv k r subs p q y) [
                | inl (f, g, _) ↦ inl (inr (f, g))
                | inr z ↦ inr z
              ]
            ]))
    | inr e ↦ rw e (
        Tells-cong opts (match_loop-Tells subs P b h.1 t)
          (λ p q x. elim x [ inl y ↦ inl y | inr y ↦ inr (Matching-tail k r subs p q h.0 y) ])
          (λ p q x. elim x [
            | inl y ↦ inl y
            | inr y ↦ elim (Matching-cons_inv k r subs p q y) [
              | inl (_, _, hit) ↦ absurd (ground (arith, e, hit))
              | inr z ↦ inr z
            ]
          ]))
  ]

  loop-Tells :
      NodupKeys s.subscriptions
      → Tells opts
          (Matching sys topic s.subscriptions)
          (match_loop sys topic s s.subscriptions no_match)
  loop-Tells h =
      Tells-cong opts (match_loop-Tells s.subscriptions (λ p q. ⊥) no_match h (no_match-Tells opts))
        (λ p q x. elim x [ inl y ↦ absurd y | inr y ↦ y ]) (λ p q x. inr x)

-- What the answer `r` must be for the subscriptions of `P` with the options `o`.
pub record Answers (o : Str → SubscriptionOptions) (P : Str → ℕ → Type 0) (r : Match) : Type 0 where
  pub nothing :
      r.matched ≡ false → ((p : Str) (q : ℕ) → ¬ P p q) × (r.qos ≡ 0) × (r.opts ≡ zero_options)
  pub chosen :
      r.matched ≡ true
      → (p : Str) × P p r.qos
        × (r.opts ≡ o p)
        × ((p' : Str) (q' : ℕ) → P p' q' → Follows q' p' r.qos p)
  pub ascends : IsStrict r.identifiers
  pub carries : (i : ℕ) → (has i r.identifiers ≡ true) ↔ Carried P o i

-- A topic is matched exactly when a subscription of the session matches it. The answer has the
-- highest QoS of those that do, with the options of the one whose filter comes first at that QoS,
-- and the identifiers of all of them, ascending and each once.
pub match_subscriptions-Answers :
    (topic : Str) (sys : Bool) (s : Subscriptions)
    → NodupKeys s.subscriptions
    → Answers
        (λ p. options_of p s)
        (Matching sys topic s.subscriptions)
        (match_subscriptions topic sys s)
unfolding match_subscriptions
match_subscriptions-Answers topic sys s h =
    let b = match_loop sys topic s s.subscriptions no_match in
    let t = loop-Tells sys topic s h in
    record {
      nothing = λ e. (t.nothing e, (t.unset e).0, (t.unset e).1);
      chosen = λ e. (b.pattern, (t.chosen e).0, (t.chosen e).1, t.first e);
      ascends = compact_identifiers-IsStrict b.identifiers;
      carries = λ i. rw (has-compact_identifiers i b.identifiers) (t.carries i);
    }

-- One answer at most is right.
Follows-antisym : (q r : ℕ) (p p' : Str) → Follows q p r p' → Follows r p' q p → (q ≡ r) × (p ≡ p')
Follows-antisym q r p p' (inl h) (inl k) = absurd (omega (arith, h, k))
Follows-antisym q r p p' (inl h) (inr (e, _)) = absurd (omega (arith, h, e))
Follows-antisym q r p p' (inr (e, _)) (inl k) = absurd (omega (arith, e, k))
Follows-antisym q r p p' (inr (e, inl a)) (inr k) = (e, a)
Follows-antisym q r p p' (inr (e, inr a)) (inr (f, inl b)) = (e, sym b)
Follows-antisym q r p p' (inr (e, inr a)) (inr (f, inr b)) =
    absurd (ground (arith, str_ltb_trans p' p p' a b, str_ltb_irrefl p'))

Answers-unique :
    (o : Str → SubscriptionOptions) (P : Str → ℕ → Type 0) (r1 r2 : Match)
    → Answers o P r1
    → Answers o P r2
    → r1 ≡ r2
Answers-unique o P r1 r2 a b = go r1.matched r2.matched refl refl
  where
    same_ids : r1.identifiers ≡ r2.identifiers
    same_ids =
        IsStrict-unique r1.identifiers r2.identifiers a.ascends b.ascends
          (λ i. same_has (has i r1.identifiers) (has i r2.identifiers) i refl refl)
      where
        same_has :
            (x y : Bool) (i : ℕ)
            → has i r1.identifiers ≡ x
            → has i r2.identifiers ≡ y
            → has i r1.identifiers ≡ has i r2.identifiers
        same_has true y i e f = e ∙ sym ((b.carries i).1 ((a.carries i).0 e))
        same_has false true i e f = (a.carries i).1 ((b.carries i).0 f) ∙ sym f
        same_has false false i e f = e ∙ sym f

    go : (x y : Bool) → r1.matched ≡ x → r2.matched ≡ y → r1 ≡ r2
    go true true e f =
        let (p1, x1, o1, l1) = a.chosen e in
        let (p2, x2, o2, l2) = b.chosen f in
        let (q, p) = Follows-antisym r1.qos r2.qos p1 p2 (l2 p1 r1.qos x1) (l1 p2 r2.qos x2) in
        let opts : r1.opts ≡ r2.opts = o1 ∙ ap o p ∙ sym o2 in cc (e, f, q, opts, same_ids)
    go true false e f = let (p, x, _, _) = a.chosen e in absurd ((b.nothing f).0 p r1.qos x)
    go false true e f = let (p, x, _, _) = b.chosen f in absurd ((a.nothing e).0 p r2.qos x)
    go false false e f =
        let (_, q1, o1) = a.nothing e in
        let (_, q2, o2) = b.nothing f in cc (e, f, q1, q2, o1, o2, same_ids)

-- The answer does not depend on the order in which Go ranges over the maps: two sessions whose maps
-- have the same entries answer the same.
pub match_subscriptions_unordered :
    (topic : Str) (sys : Bool) (s t : Subscriptions)
    → NodupKeys s.subscriptions
    → NodupKeys t.subscriptions
    → ((p : Str) → lookup p s.subscriptions ≡ lookup p t.subscriptions)
    → ((p : Str) → options_of p s ≡ options_of p t)
    → match_subscriptions topic sys s ≡ match_subscriptions topic sys t
match_subscriptions_unordered topic sys s t h k same opts =
    Answers-unique (λ p. options_of p s) (Matching sys topic s.subscriptions) _ _
      (match_subscriptions-Answers topic sys s h)
      (Answers-cong (match_subscriptions topic sys t) (match_subscriptions-Answers topic sys t k))
  where
    Answers-cong :
        (r : Match)
        → Answers (λ p. options_of p t) (Matching sys topic t.subscriptions) r
        → Answers (λ p. options_of p s) (Matching sys topic s.subscriptions) r
    Answers-cong r a = record {
      nothing = λ e. (λ p q x. (a.nothing e).0 p q (to p q x), (a.nothing e).1, (a.nothing e).2);
      chosen = λ e.
          let (p, x, o, l) = a.chosen e in
          (p, from p r.qos x, o ∙ sym (opts p), λ p' q' y. l p' q' (to p' q' y));
      ascends = a.ascends;
      carries = λ i. (
        λ e.
            let (p, q, x, c) = (a.carries i).0 e in
            (p, q, from p q x, ap (λ z. z.subscription_identifier) (opts p) ∙ c),
        λ c.
            (a.carries i).1 (
              c.0,
              c.1,
              to c.0 c.1 c.2,
              ap (λ z. z.subscription_identifier) (sym (opts c.0)) ∙ c.3,
            ),
      );
    }
      where
        to :
            (p : Str) (q : ℕ)
            → Matching sys topic s.subscriptions p q
            → Matching sys topic t.subscriptions p q
        to p q (e, f) = (sym (same p) ∙ e, f)

        from :
            (p : Str) (q : ℕ)
            → Matching sys topic t.subscriptions p q
            → Matching sys topic s.subscriptions p q
        from p q (e, f) = (same p ∙ e, f)
