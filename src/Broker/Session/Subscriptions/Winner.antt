-- ===== src/Broker/Session/Subscriptions/Winner.antt =====
-- What the loop of `matchSubscriptions` in broker/session.go has found when it has seen some of
-- the subscriptions, whatever their order.
use shark_mqtt.Prelude.{
  ℕ, ◌<◌, ◌≡◌, ◌⊎◌, ◌↔◌, ◌∙◌, refl, sym, ap, Bool, true, false, not, ◌&&◌, ◌||◌, Option, none, some,
  List, Str, ltb, ◌==◌, nat_eq, str_eq, nat_beq_iff, str_beq, str_beq_iff, if◌then◌else◌, arith,
  Bool-cases, inl, inr, none-ne-some, some-eq-some,
}
use shark_mqtt.Broker.TopicTree.Shared.{str_ltb}
use shark_mqtt.Broker.TopicTree.Shared.Order.{str_ltb_trans, str_ltb_total}
use shark_mqtt.Broker.Session.Subscriptions.{
  SubscriptionOptions, zero_options, more_specific, Best, add_identifier, take_match, no_match,
}
use shark_mqtt.Broker.Session.Subscriptions.Sorted.{has}

-- One subscription does not come before another: it has less QoS, or a later filter.
abbrev pub Follows : ℕ → Str → ℕ → Str → Type 0
Follows q p best_q best_p =
    (q < best_q) ⊎ ((q ≡ best_q) × ((p ≡ best_p) ⊎ (str_ltb best_p p ≡ true)))

abbrev pub Carried : (Str → ℕ → Type 0) → (Str → SubscriptionOptions) → ℕ → Type 0
Carried P o i = (p : Str) × (q : ℕ) × P p q × ((o p).subscription_identifier ≡ some i)

-- `b` tells of the subscriptions of `P`, which have the options `o`.
pub record Tells (o : Str → SubscriptionOptions) (P : Str → ℕ → Type 0) (b : Best) : Type 0 where
  pub nothing : b.matched ≡ false → (p : Str) (q : ℕ) → ¬ P p q
  pub unset : b.matched ≡ false → (b.qos ≡ 0) × (b.opts ≡ zero_options)
  pub chosen : b.matched ≡ true → P b.pattern b.qos × (b.opts ≡ o b.pattern)
  pub first : b.matched ≡ true → (p : Str) (q : ℕ) → P p q → Follows q p b.qos b.pattern
  pub carries : (i : ℕ) → (has i b.identifiers ≡ true) ↔ Carried P o i

Follows-trans :
    (q r s : ℕ) (p1 p2 p3 : Str) → Follows q p1 r p2 → Follows r p2 s p3 → Follows q p1 s p3
Follows-trans q r s p1 p2 p3 (inl h) (inl k) = inl (omega (arith, h, k))
Follows-trans q r s p1 p2 p3 (inl h) (inr (e, _)) = inl (omega (arith, h, e))
Follows-trans q r s p1 p2 p3 (inr (e, _)) (inl k) = inl (omega (arith, e, k))
Follows-trans q r s p1 p2 p3 (inr (e, inl a)) (inr (f, inl b)) = inr (e ∙ f, inl (a ∙ b))
Follows-trans q r s p1 p2 p3 (inr (e, inl a)) (inr (f, inr b)) = inr (e ∙ f, inr (rw a b))
Follows-trans q r s p1 p2 p3 (inr (e, inr a)) (inr (f, inl b)) = inr (e ∙ f, inr (rw (sym b) a))
Follows-trans q r s p1 p2 p3 (inr (e, inr a)) (inr (f, inr b)) =
    inr (e ∙ f, inr (str_ltb_trans p3 p2 p1 b a))

-- What the test of the loop decides.
test_won :
    (q r : ℕ) (p best : Str) → ltb r q || q == r && more_specific p best ≡ true → Follows r best q p
unfolding more_specific
test_won q r p best e = ground (arith, e, nat_beq_iff q r)

test_lost :
    (q r : ℕ) (p best : Str)
    → ltb r q || q == r && more_specific p best ≡ false
    → Follows q p r best
unfolding more_specific
test_lost q r p best e = elim (Bool-cases (str_beq p best)) [
  | inl b ↦ ground (arith, e, nat_beq_iff q r, (str_beq_iff p best).0 b)
  | inr b ↦ ground (arith, e, nat_beq_iff q r, later b)
]
  where
    later : str_beq p best ≡ false → str_ltb p best ≡ false → str_ltb best p ≡ true
    later b l = str_ltb_total p best l (λ same. ground (arith, b, (str_beq_iff p best).1 same))

module _ (o : Str → SubscriptionOptions) where
  pub no_match-Tells : Tells o (λ p q. ⊥) no_match
  unfolding has
  no_match-Tells = record {
    nothing = λ e p q h. h;
    unset = λ e. (refl, refl);
    chosen = λ e. absurd (ground (arith, e));
    first = λ e p q h. absurd h;
    carries = λ i. (λ e. absurd (ground (arith, e)), λ c. absurd c.2);
  }

  pub Tells-cong :
      {P Q : Str → ℕ → Type 0} {b : Best}
      → Tells o P b
      → ((p : Str) (q : ℕ) → P p q → Q p q)
      → ((p : Str) (q : ℕ) → Q p q → P p q)
      → Tells o Q b
  Tells-cong {P} {Q} {b} t to from = record {
    nothing = λ e p q h. t.nothing e p q (from p q h);
    unset = t.unset;
    chosen = λ e. (to b.pattern b.qos (t.chosen e).0, (t.chosen e).1);
    first = λ e p q h. t.first e p q (from p q h);
    carries = λ i. (
      λ e. let (p, q, h, c) = (t.carries i).0 e in (p, q, to p q h, c),
      λ c. (t.carries i).1 (c.0, c.1, from c.0 c.1 c.2, c.3),
    );
  }

  -- One subscription more.
  module _ (P : Str → ℕ → Type 0) (p : Str) (q : ℕ) (b : Best) (t : Tells o P b) where
    abbrev pub WithMatch : Str → ℕ → Type 0
    WithMatch p' q' = P p' q' ⊎ ((p' ≡ p) × (q' ≡ q))

    added_carries :
        (i : ℕ)
        → (has i (add_identifier (o p).subscription_identifier b.identifiers) ≡ true)
          ↔ Carried WithMatch o i
    added_carries i = go (o p).subscription_identifier refl
      where
        old : Carried P o i → Carried WithMatch o i
        old c = (c.0, c.1, inl c.2, c.3)

        go :
            (s : Option ℕ)
            → (o p).subscription_identifier ≡ s
            → (has i (add_identifier s b.identifiers) ≡ true) ↔ Carried WithMatch o i
        go none e = (
          λ h. old ((t.carries i).0 h),
          λ c. elim c.2 [
            | inl h ↦ (t.carries i).1 (c.0, c.1, h, c.3)
            | inr (f, _) ↦
                absurd
                  (none-ne-some (sym e ∙ sym (ap (λ r. (o r).subscription_identifier) f) ∙ c.3))
          ],
        )
        go (some j) e = (
          λ h. elim (Bool-cases (j == i)) [
            | inl b ↦ (p, q, inr (refl, refl), e ∙ ap some ((nat_beq_iff j i).0 b))
            | inr b ↦ old ((t.carries i).0 (unfold has in ground (arith, b, h)))
          ],
          λ c. elim c.2 [
            | inl h ↦ unfold has in ground (arith, (t.carries i).1 (c.0, c.1, h, c.3))
            | inr (f, _) ↦
                let same : j ≡ i =
                  some-eq-some (sym e ∙ sym (ap (λ r. (o r).subscription_identifier) f) ∙ c.3) in
                unfold has in ground (arith, nat_beq_iff j i, same)
          ],
        )

    won-Tells :
        (ids : List ℕ)
        → ((i : ℕ) → (has i ids ≡ true) ↔ Carried WithMatch o i)
        → (b.matched ≡ true → Follows b.qos b.pattern q p)
        → Tells o WithMatch
            (record { matched = true; qos = q; opts = o p; pattern = p; identifiers = ids })
    won-Tells ids c w = record {
      nothing = λ e. absurd (ground (arith, e));
      unset = λ e. absurd (ground (arith, e));
      chosen = λ e. (inr (refl, refl), refl);
      first = λ e p' q' m. elim m [
        | inl h ↦ elim (Bool-cases b.matched) [
          | inl y ↦ Follows-trans q' b.qos q p' b.pattern p (t.first y p' q' h) (w y)
          | inr n ↦ absurd (t.nothing n p' q' h)
        ]
        | inr (x, y) ↦ inr (y, inl x)
      ];
      carries = c;
    }

    lost-Tells :
        (ids : List ℕ)
        → ((i : ℕ) → (has i ids ≡ true) ↔ Carried WithMatch o i)
        → b.matched ≡ true
        → Follows q p b.qos b.pattern
        → Tells o WithMatch (record b { matched = true; identifiers = ids })
    lost-Tells ids c y l = record {
      nothing = λ e. absurd (ground (arith, e));
      unset = λ e. absurd (ground (arith, e));
      chosen = λ e. (inl (t.chosen y).0, (t.chosen y).1);
      first = λ e p' q' m. elim m [ inl h ↦ t.first y p' q' h | inr (f, g) ↦ rw f (rw g l) ];
      carries = c;
    }

    pub take_match-Tells : Tells o WithMatch (take_match p q (o p) b)
    unfolding take_match
    take_match-Tells = go b.matched refl
      where
        ids : List ℕ
        ids = add_identifier (o p).subscription_identifier b.identifiers

        go :
            (m : Bool)
            → b.matched ≡ m
            → Tells o WithMatch (
                if not m || (ltb b.qos q || q == b.qos && more_specific p b.pattern)
                then record { matched = true; qos = q; opts = o p; pattern = p; identifiers = ids }
                else record b { matched = true; identifiers = ids })
        go false e = won-Tells ids added_carries (λ y. absurd (ground (arith, e, y)))
        go true e = elim (Bool-cases (ltb b.qos q || q == b.qos && more_specific p b.pattern)) [
          | inl w ↦ rw w (won-Tells ids added_carries (λ y. test_won q b.qos p b.pattern w))
          | inr l ↦ rw l (lost-Tells ids added_carries e (test_lost q b.qos p b.pattern l))
        ]
