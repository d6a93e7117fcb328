-- ===== src/Broker/Wills/Owner.antt =====
-- Who can trigger a will of broker/will_handler.go, and what becomes of one that is triggered.
use shark_mqtt.Prelude.{
  ℕ, ◌≡◌, ◌≢◌, ◌⊎◌, ◌∙◌, refl, sym, List, some-eq-some, true, false, Option, none, some, [], ◌∷◌,
  ◌++◌, Str, length, ltb, ◌==◌, nat_eq, str_eq, arith, Bool-cases, inl, inr, beq_refl,
}
use shark_mqtt.Prelude.Map.{lookup, delete, lookup-insert, lookup-delete}
use mathlib.Core.Path.{subst}
use shark_mqtt.Broker.Wills.Armed.{running}
use shark_mqtt.Broker.Wills.Delays.{arm, reached-IsArmed}
use shark_mqtt.Broker.Wills.{
  Event, run, new_will_handler, WillMessage, WillHandler, is_foreign, trigger_will, trigger_found,
  delay_passed, fire_will, publish_will_message, stop_timer,
}

-- A connection that is not the one that registered the will leaves all as it is; so does anyone
-- while the will is waiting out its delay, or while there is none.
pub trigger_will_refused :
    (c : Str) (w : WillMessage) (conn : Option ℕ) (id : ℕ) (h : WillHandler)
    → (lookup c h.wills ≡ none → trigger_will c conn h ≡ h)
      × (lookup c h.wills ≡ some w → is_foreign conn w.conn ≡ true → trigger_will c conn h ≡ h)
      × (lookup c h.cancel ≡ some id → trigger_will c conn h ≡ h)
unfolding trigger_will
trigger_will_refused c w conn id h = (
  λ e. rw (e, trigger_will) refl,
  λ e f. rw (e, trigger_will) (rw f refl),
  λ e. armed (lookup c h.wills) e,
)
  where
    armed :
        (o : Option WillMessage)
        → lookup c h.cancel ≡ some id
        → (elim o [ none ↦ h | some will ↦ trigger_found will c conn h ]) ≡ h
    armed none e = refl
    armed (some v) e = elim (Bool-cases (is_foreign conn v.conn)) [
      | inl f ↦ rw f refl
      | inr f ↦ rw f (rw e refl)
    ]

-- The will of `c` is published, and is no longer registered.
abbrev pub Publishes : Str → WillMessage → WillHandler → WillHandler → Type 0
Publishes c w h g = (g.published ≡ h.published ++ w ∷ []) × (lookup c g.wills ≡ none)

-- The will waits: it is published when its timer `id` has passed, or when it is fired before.
abbrev pub Waits : Str → WillMessage → ℕ → WillHandler → Type 0
Waits c w id h = Publishes c w h (delay_passed id h) × Publishes c w h (fire_will c h)

module _ (c : Str) (w : WillMessage) (h : WillHandler) (e : lookup c h.wills ≡ some w)
    (b : h.has_callback ≡ true) (t : ltb 0 (length w.topic) ≡ true) where
  gone : lookup c (delete c h.wills) ≡ none
  gone = lookup-delete c c h.wills ∙ rw (beq_refl c) refl

  -- A will whose timer runs.
  armed-Waits :
      (id : ℕ)
      → lookup c h.cancel ≡ some id
      → lookup id h.timers ≡ some (running c w)
      → Waits c w id h
  unfolding delay_passed fire_will publish_will_message stop_timer
  armed-Waits id a r = (
    (
      rw (r, delay_passed) (rw e (rw (beq_refl w.serial) (rw b (rw t refl)))),
      rw (r, delay_passed) (rw e (rw (beq_refl w.serial) (rw b (rw t gone)))),
    ),
    (rw (e, fire_will) (rw a (rw b (rw t refl))), rw (e, fire_will) (rw a (rw b (rw t gone)))),
  )

  trigger_armed :
      (conn : Option ℕ) (id : ℕ)
      → is_foreign conn w.conn ≡ false
      → lookup c h.cancel ≡ some id
      → trigger_will c conn h ≡ h
  unfolding trigger_will
  trigger_armed conn id f a = rw (e, trigger_will) (rw f (rw a refl))

  trigger_now :
      (conn : Option ℕ)
      → is_foreign conn w.conn ≡ false
      → lookup c h.cancel ≡ none
      → (w.delay == 0) ≡ true
      → Publishes c w h (trigger_will c conn h)
  unfolding trigger_will publish_will_message
  trigger_now conn f a d = (
    rw (e, trigger_will) (rw f (rw a (rw d (rw b (rw t refl))))),
    rw (e, trigger_will) (rw f (rw a (rw d (rw b (rw t gone))))),
  )

  trigger_later :
      (conn : Option ℕ)
      → is_foreign conn w.conn ≡ false
      → lookup c h.cancel ≡ none
      → (w.delay == 0) ≡ false
      → trigger_will c conn h ≡ arm c w h
  unfolding trigger_will
  trigger_later conn f a d = rw (e, trigger_will) (rw f (rw a (rw d refl)))

-- In any state that the calls and the timers can lead to, for a will that can be published (a callback is
-- set and it has a topic) and that its owner triggers: if it is not waiting and has no delay, it is
-- published at once and no longer registered. Else nothing is published yet and the will waits, whether it
-- was waiting already or not: when the timer that its client then has passes, or before, when it is fired
-- as the session ends, it is published and no longer registered.
pub trigger_will-Waits :
    (past : List Event) (c : Str) (w : WillMessage) (conn : Option ℕ)
    → let h = run past new_will_handler in
      lookup c h.wills ≡ some w
      → h.has_callback ≡ true
      → ltb 0 (length w.topic) ≡ true
      → is_foreign conn w.conn ≡ false
      → let g = trigger_will c conn h in
        ((lookup c h.cancel ≡ none) × (w.delay ≡ 0) × Publishes c w h g)
        ⊎ ((w.delay ≢ 0)
            × (g.published ≡ h.published)
            × ((id : ℕ) × (lookup c g.cancel ≡ some id) × Waits c w id g))
trigger_will-Waits past c w conn e b t f = go (lookup c h.cancel) refl
  where
    h : WillHandler
    h = run past new_will_handler

    Result : WillHandler → Type 0
    Result g =
        ((lookup c h.cancel ≡ none) × (w.delay ≡ 0) × Publishes c w h g)
        ⊎ ((w.delay ≢ 0)
            × (g.published ≡ h.published)
            × ((id : ℕ) × (lookup c g.cancel ≡ some id) × Waits c w id g))

    go : (o : Option ℕ) → lookup c h.cancel ≡ o → Result (trigger_will c conn h)
    go (some id) a =
        let (v, r, timer, n) = (reached-IsArmed past).armed c id a in
        let same : v ≡ w = some-eq-some (sym r ∙ e) in
        subst Result (sym (trigger_armed c w h e b t conn id f a)) (
          inr (
            subst (λ x. x.delay ≢ 0) same n,
            refl,
            (
              id,
              a,
              armed-Waits c w h e b t id a
                  (subst (λ x. lookup id h.timers ≡ some (running c x)) same timer),
            ),
          ))
    go none a = elim (Bool-cases (w.delay == 0)) [
      | inl d ↦ inl (a, ground (arith, d), trigger_now c w h e b t conn f a d)
      | inr d ↦ subst Result (sym (trigger_later c w h e b t conn f a d)) (
          inr (
            λ z. ground (arith, d, z),
            refl,
            (h.next_timer, set, armed-Waits c w (arm c w h) e b t h.next_timer set timed),
          ))
    ]
      where
        set : lookup c (arm c w h).cancel ≡ some h.next_timer
        set = lookup-insert c c h.next_timer h.cancel ∙ rw (beq_refl c) refl

        timed : lookup h.next_timer (arm c w h).timers ≡ some (running c w)
        timed =
            lookup-insert h.next_timer h.next_timer (running c w) h.timers
            ∙ rw (beq_refl h.next_timer) refl
