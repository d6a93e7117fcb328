-- ===== src/Broker/Wills/Retired.antt =====
-- A will of broker/will_handler.go that is given up stays unpublished.
use shark_mqtt.Prelude.{
  ℕ, ◌+◌, ◌<◌, ◌≡◌, ◌≢◌, ◌∙◌, refl, sym, ap, Bool, true, false, some, List, [], ◌∷◌, ◌++◌, Str,
  ◌==◌, nat_eq, nat_beq_iff, str_eq, str_beq, str_beq_iff, arith, Bool-cases, inl, inr,
  none-ne-some, some-eq-some,
}
use mathlib.Core.Path.{subst}
use shark_mqtt.Prelude.Map.{lookup, insert, delete, lookup-insert, lookup-delete}
use shark_mqtt.Broker.Wills.{
  WillMessage, WillHandler, Event, step, run, cancel_will, remove_will, stop, register_will,
  new_will_handler,
}
use shark_mqtt.Broker.Wills.Moves.{
  Core, core, Move, stays, drops, clears, adds, publishes, step-Move, core-stop_timer,
  core-register_will, as_registered,
}
use shark_mqtt.Broker.Wills.Published.{is_published, is_published-append, IsOnce, reached-IsOnce}

-- The identity has been given out, is not registered, and has not been published.
pub record IsRetired (s : ℕ) (a : Core) : Type 0 where
  pub given : s < a.next
  pub gone : (c : Str) (w : WillMessage) → lookup c a.wills ≡ some w → w.serial ≢ s
  pub unseen : is_published s a.published ≡ false

module _ (s : ℕ) (a : Core) (h : IsRetired s a) where
  drop-IsRetired : (c : Str) → IsRetired s (record a { wills = delete c a.wills })
  drop-IsRetired c = record {
    given = h.given;
    gone = λ d w e. elim (Bool-cases (str_beq c d)) [
      | inl b ↦ absurd (none-ne-some (rw b at (sym (lookup-delete c d a.wills) ∙ e)))
      | inr b ↦ h.gone d w (rw b at (sym (lookup-delete c d a.wills) ∙ e))
    ];
    unseen = h.unseen;
  }

  add-IsRetired :
      (c : Str) (w : WillMessage)
      → w.serial ≡ a.next
      → IsRetired s (record a { wills = insert c w a.wills; next = a.next + 1 })
  add-IsRetired c w k = record {
    given = omega (arith, h.given);
    gone = λ d v e. elim (Bool-cases (str_beq c d)) [
      | inl b ↦
          let same : w ≡ v = some-eq-some (rw b at (sym (lookup-insert c d w a.wills) ∙ e)) in
          λ x. omega (arith, x, k, h.given, ap (λ u. u.serial) same)
      | inr b ↦ h.gone d v (rw b at (sym (lookup-insert c d w a.wills) ∙ e))
    ];
    unseen = h.unseen;
  }

  publish-IsRetired :
      (c : Str) (w u : WillMessage)
      → lookup c a.wills ≡ some w
      → w.serial ≡ u.serial
      → IsRetired s (record a { wills = delete c a.wills; published = a.published ++ u ∷ [] })
  publish-IsRetired c w u e k =
      let left = drop-IsRetired c in
      record {
        given = h.given;
        gone = left.gone;
        unseen = is_published-append s a.published u ∙ rw h.unseen (other (u.serial == s) refl);
      }
    where
      other : (b : Bool) → (u.serial == s) ≡ b → b ≡ false
      other false f = refl
      other true f = absurd (h.gone c w e (k ∙ (nat_beq_iff u.serial s).0 f))

Move-IsRetired : (s : ℕ) (a b : Core) → Move a b → IsRetired s a → IsRetired s b
unfolding lookup
Move-IsRetired s a b (stays e) h = subst (IsRetired s) (sym e) h
Move-IsRetired s a b (drops c e) h = subst (IsRetired s) (sym e) (drop-IsRetired s a h c)
Move-IsRetired s a b (clears e) h =
    subst (IsRetired s) (sym e)
      (record { given = h.given; gone = λ c w f. absurd (none-ne-some f); unseen = h.unseen })
Move-IsRetired s a b (adds c w k e) h = subst (IsRetired s) (sym e) (add-IsRetired s a h c w k)
Move-IsRetired s a b (publishes c w u f k e) h =
    subst (IsRetired s) (sym e) (publish-IsRetired s a h c w u f k)

pub run-IsRetired :
    (s : ℕ) (es : List Event) (h : WillHandler)
    → IsRetired s (core h)
    → IsRetired s (core (run es h))
unfolding run
run-IsRetired s [] h k = k
run-IsRetired s (e ∷ es) h k =
    run-IsRetired s es (step e h) (Move-IsRetired s (core h) (core (step e h)) (step-Move e h) k)

-- How a registered will is given up.
module _ (a : Core) (o : IsOnce a) (c : Str) (w : WillMessage) (e : lookup c a.wills ≡ some w) where
  deleted-IsRetired : IsRetired w.serial (record a { wills = delete c a.wills })
  deleted-IsRetired = record {
    given = o.bounded c w e;
    gone = λ d v f. elim (Bool-cases (str_beq c d)) [
      | inl b ↦ absurd (none-ne-some (rw b at (sym (lookup-delete c d a.wills) ∙ f)))
      | inr b ↦ λ same.
          let g : lookup d a.wills ≡ some v = rw b at (sym (lookup-delete c d a.wills) ∙ f) in
          ground (arith, b, str_beq_iff c d, o.distinct c d w v e g (sym same))
    ];
    unseen = o.fresh c w e;
  }

  cleared-IsRetired : IsRetired w.serial (record a { wills = [] })
  unfolding lookup
  cleared-IsRetired = record {
    given = o.bounded c w e;
    gone = λ d v f. absurd (none-ne-some f);
    unseen = o.fresh c w e;
  }

  replaced-IsRetired :
      (v : WillMessage)
      → v.serial ≡ a.next
      → IsRetired w.serial (record a { wills = insert c v a.wills; next = a.next + 1 })
  replaced-IsRetired v k = record {
    given = omega (arith, o.bounded c w e);
    gone = λ d u f. elim (Bool-cases (str_beq c d)) [
      | inl b ↦
          let same : v ≡ u = some-eq-some (rw b at (sym (lookup-insert c d v a.wills) ∙ f)) in
          λ x. omega (arith, x, k, o.bounded c w e, ap (λ u. u.serial) same)
      | inr b ↦ λ same.
          let g : lookup d a.wills ≡ some u = rw b at (sym (lookup-insert c d v a.wills) ∙ f) in
          ground (arith, b, str_beq_iff c d, o.distinct c d w u e g (sym same))
    ];
    unseen = o.fresh c w e;
  }

-- A will whose registration is taken away, by a cancellation, a removal or a stop, or replaced by a
-- new registration of its client, is published by nothing that happens afterwards, a timer that
-- was already waiting included.
pub given_up_unpublished :
    (past es : List Event) (c : Str) (w v : WillMessage)
    → let h = run past new_will_handler in
      lookup c h.wills ≡ some w
      → v.client_id ≡ c
      → (is_published w.serial (run es (cancel_will c h)).published ≡ false)
        × (is_published w.serial (run es (remove_will c h)).published ≡ false)
        × (is_published w.serial (run es (stop h)).published ≡ false)
        × (is_published w.serial (run es (register_will v h)).published ≡ false)
unfolding cancel_will remove_will stop
given_up_unpublished past es c w v e f =
    let h = run past new_will_handler in
    let o = reached-IsOnce past in
    let deleted = deleted-IsRetired (core h) o c w e in
    (
      (run-IsRetired w.serial es (cancel_will c h) (
          subst (IsRetired w.serial)
            (sym (ap (λ (a : Core). record a { wills = delete c a.wills }) (core-stop_timer c h)))
            deleted)).unseen,
      (run-IsRetired w.serial es (remove_will c h) (
          subst (IsRetired w.serial)
            (sym (core-stop_timer c (record h { wills = delete c h.wills }))) deleted)).unseen,
      (run-IsRetired w.serial es (stop h) (cleared-IsRetired (core h) o c w e)).unseen,
      (run-IsRetired w.serial es (register_will v h) (
          subst (IsRetired w.serial) (sym (core-register_will v h)) (
            subst
              (λ k. IsRetired w.serial (record (core h) {
                wills = insert k (as_registered v h.next_serial) h.wills;
                next = h.next_serial + 1;
              }))
              (sym f)
              (replaced-IsRetired (core h) o c w e (as_registered v h.next_serial) refl)))).unseen,
    )
