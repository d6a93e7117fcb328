-- ===== src/Broker/Wills/Published.antt =====
-- Each will of broker/will_handler.go is published at most once, and never once it has been
-- cancelled, removed or replaced.
use shark_mqtt.Prelude.{
  ℕ, ◌+◌, ◌<◌, ◌≡◌, ◌⊎◌, ◌∙◌, refl, sym, ap, Bool, true, false, ◌||◌, some, List, [], ◌∷◌, ◌++◌,
  Str, ◌==◌, nat_eq, nat_beq_iff, str_eq, str_beq, str_beq_iff, arith, Bool-cases, inl, inr,
  none-ne-some, some-eq-some,
}
use mathlib.Core.Path.{subst}
use shark_mqtt.Prelude.Map.{lookup, insert, delete, lookup-insert, lookup-delete}
use shark_mqtt.Broker.Wills.{WillMessage, WillHandler, Event, step, run, new_will_handler}
use shark_mqtt.Broker.Wills.Moves.{
  Core, core, Move, stays, drops, clears, adds, publishes, step-Move,
}

-- The identity has been published.
unfoldable pub is_published : ℕ → List WillMessage → Bool
is_published s [] = false
is_published s (w ∷ ws) = w.serial == s || is_published s ws

-- No identity has been published twice.
abbrev pub NoneTwice : List WillMessage → Type 0
NoneTwice [] = Unit
NoneTwice (w ∷ ws) = (is_published w.serial ws ≡ false) × NoneTwice ws

pub is_published-append :
    (s : ℕ) (ws : List WillMessage) (w : WillMessage)
    → is_published s (ws ++ w ∷ []) ≡ (is_published s ws || w.serial == s)
unfolding is_published
is_published-append s [] w = ground arith
is_published-append s (v ∷ ws) w = ground (arith, is_published-append s ws w)

NoneTwice-append :
    (ws : List WillMessage) (w : WillMessage)
    → NoneTwice ws
    → is_published w.serial ws ≡ false
    → NoneTwice (ws ++ w ∷ [])
unfolding is_published
NoneTwice-append [] w h e = (refl, tt)
NoneTwice-append (v ∷ ws) w h e = (
  is_published-append v.serial ws w
      ∙ ground (arith, h.0, e, nat_beq_iff v.serial w.serial, nat_beq_iff w.serial v.serial),
  NoneTwice-append ws w h.1 (ground (arith, e)),
)

-- What keeps a will from being published again.
pub record IsOnce (a : Core) : Type 0 where
  pub bounded : (c : Str) (w : WillMessage) → lookup c a.wills ≡ some w → w.serial < a.next
  pub distinct :
      (c d : Str) (w v : WillMessage)
      → lookup c a.wills ≡ some w
      → lookup d a.wills ≡ some v
      → w.serial ≡ v.serial
      → c ≡ d
  pub fresh :
      (c : Str) (w : WillMessage)
      → lookup c a.wills ≡ some w
      → is_published w.serial a.published ≡ false
  pub past : (s : ℕ) → is_published s a.published ≡ true → s < a.next
  pub once : NoneTwice a.published

module _ (a : Core) (h : IsOnce a) where
  -- What is left after a deletion was there.
  kept :
      (c d : Str) (w : WillMessage)
      → lookup d (delete c a.wills) ≡ some w
      → (lookup d a.wills ≡ some w) × (str_beq c d ≡ false)
  kept c d w e = elim (Bool-cases (str_beq c d)) [
    | inl b ↦ absurd (none-ne-some (rw b at (sym (lookup-delete c d a.wills) ∙ e)))
    | inr b ↦ (rw b at (sym (lookup-delete c d a.wills) ∙ e), b)
  ]

  drop-IsOnce : (c : Str) → IsOnce (record a { wills = delete c a.wills })
  drop-IsOnce c = record {
    bounded = λ d w e. h.bounded d w (kept c d w e).0;
    distinct = λ d k w v e f. h.distinct d k w v (kept c d w e).0 (kept c k v f).0;
    fresh = λ d w e. h.fresh d w (kept c d w e).0;
    past = h.past;
    once = h.once;
  }

  clear-IsOnce : IsOnce (record a { wills = [] })
  unfolding lookup
  clear-IsOnce = record {
    bounded = λ d w e. absurd (none-ne-some e);
    distinct = λ d k w v e. absurd (none-ne-some e);
    fresh = λ d w e. absurd (none-ne-some e);
    past = h.past;
    once = h.once;
  }

  -- A registration is new or was there.
  either :
      (c d : Str) (w v : WillMessage)
      → lookup d (insert c w a.wills) ≡ some v
      → ((c ≡ d) × (w ≡ v)) ⊎ (lookup d a.wills ≡ some v)
  either c d w v e = elim (Bool-cases (str_beq c d)) [
    | inl b ↦
        inl ((str_beq_iff c d).0 b, some-eq-some (rw b at (sym (lookup-insert c d w a.wills) ∙ e)))
    | inr b ↦ inr (rw b at (sym (lookup-insert c d w a.wills) ∙ e))
  ]

  unpublished : (b : Bool) → is_published a.next a.published ≡ b → b ≡ false
  unpublished false e = refl
  unpublished true e = absurd (omega (arith, h.past a.next e))

  add-IsOnce :
      (c : Str) (w : WillMessage)
      → w.serial ≡ a.next
      → IsOnce (record a { wills = insert c w a.wills; next = a.next + 1 })
  add-IsOnce c w s = record {
    bounded = λ d v e. elim (either c d w v e) [
      | inl (_, x) ↦ omega (arith, s, ap (λ u. u.serial) x)
      | inr x ↦ omega (arith, h.bounded d v x)
    ];
    distinct = λ d k v u e f same. elim (either c d w v e) [
      | inl (p, x) ↦ elim (either c k w u f) [
        | inl (q, _) ↦ sym p ∙ q
        | inr y ↦ absurd (omega (arith, s, ap (λ u. u.serial) x, same, h.bounded k u y))
      ]
      | inr x ↦ elim (either c k w u f) [
        | inl (_, y) ↦ absurd (omega (arith, s, ap (λ u. u.serial) y, same, h.bounded d v x))
        | inr y ↦ h.distinct d k v u x y same
      ]
    ];
    fresh = λ d v e. elim (either c d w v e) [
      | inl (_, x) ↦
          rw (sym (ap (λ u. u.serial) x))
            (rw s (unpublished (is_published a.next a.published) refl))
      | inr x ↦ h.fresh d v x
    ];
    past = λ t e. omega (arith, h.past t e);
    once = h.once;
  }

  publish-IsOnce :
      (c : Str) (w u : WillMessage)
      → lookup c a.wills ≡ some w
      → w.serial ≡ u.serial
      → IsOnce (record a { wills = delete c a.wills; published = a.published ++ u ∷ [] })
  publish-IsOnce c w u e s = record {
    bounded = λ d v f. h.bounded d v (kept c d v f).0;
    distinct = λ d k v x f g. h.distinct d k v x (kept c d v f).0 (kept c k x g).0;
    fresh = λ d v f.
        let (g, apart) = kept c d v f in
        is_published-append v.serial a.published u
        ∙ rw (h.fresh d v g) (another d v g apart (u.serial == v.serial) refl);
    past = λ t f. ground (
      arith,
      f,
      is_published-append t a.published u,
      h.past t,
      h.bounded c w e,
      s,
      nat_beq_iff u.serial t,
    );
    once = NoneTwice-append a.published u h.once (rw (sym s) (h.fresh c w e));
  }
    where
      another :
          (d : Str) (v : WillMessage)
          → lookup d a.wills ≡ some v
          → str_beq c d ≡ false
          → (b : Bool) → (u.serial == v.serial) ≡ b
          → b ≡ false
      another d v g apart false f = refl
      another d v g apart true f =
          let same : c ≡ d = h.distinct c d w v e g (s ∙ (nat_beq_iff u.serial v.serial).0 f) in
          absurd (ground (arith, apart, (str_beq_iff c d).1 same))

Move-IsOnce : (a b : Core) → Move a b → IsOnce a → IsOnce b
Move-IsOnce a b (stays e) h = subst IsOnce (sym e) h
Move-IsOnce a b (drops c e) h = subst IsOnce (sym e) (drop-IsOnce a h c)
Move-IsOnce a b (clears e) h = subst IsOnce (sym e) (clear-IsOnce a h)
Move-IsOnce a b (adds c w s e) h = subst IsOnce (sym e) (add-IsOnce a h c w s)
Move-IsOnce a b (publishes c w u f s e) h = subst IsOnce (sym e) (publish-IsOnce a h c w u f s)

run-IsOnce : (es : List Event) (h : WillHandler) → IsOnce (core h) → IsOnce (core (run es h))
unfolding run
run-IsOnce [] h k = k
run-IsOnce (e ∷ es) h k =
    run-IsOnce es (step e h) (Move-IsOnce (core h) (core (step e h)) (step-Move e h) k)

pub reached-IsOnce : (es : List Event) → IsOnce (core (run es new_will_handler))
reached-IsOnce es = run-IsOnce es new_will_handler start
  where
    start : IsOnce (core new_will_handler)
    start =
        unfold new_will_handler lookup is_published in
        record {
          bounded = λ d w e. absurd (none-ne-some e);
          distinct = λ d k w v e. absurd (none-ne-some e);
          fresh = λ d w e. refl;
          past = λ t e. absurd (ground (arith, e));
          once = tt;
        }

-- Whatever happens to a new handler, in whatever order, timers that fire late included, no will is
-- published twice.
pub run-NoneTwice : (es : List Event) → NoneTwice (run es new_will_handler).published
run-NoneTwice es = (reached-IsOnce es).once
