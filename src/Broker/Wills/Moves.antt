-- ===== src/Broker/Wills/Moves.antt =====
-- What a step of broker/will_handler.go does to the registered and the published wills.
use shark_mqtt.Prelude.{
  ℕ, ◌+◌, ◌≡◌, refl, ap, not, ◌&&◌, Option, none, some, List, [], ◌∷◌, ◌++◌, Str, length, is_some,
  ltb, ◌==◌, nat_eq, nat_beq_iff, str_eq, if◌then◌else◌, Bool-cases, inl, inr,
}
use shark_mqtt.Prelude.Map.{Map, lookup, insert, delete}
use shark_mqtt.Broker.Wills.{
  WillMessage, Timer, WillHandler, Event, callback_set, registered, triggered, passed, ended, fired,
  cancelled, removed, stopped, step, publish_will_message, stop_timer, stop_found, register_will,
  trigger_will, trigger_found, is_foreign, delay_passed, timer_fires, is_current, context_done,
  fire_will, cancel_will, remove_will, stop, set_publish_callback, relayable_will_properties,
}

-- The wills that are registered, those that have been published, and the next identity.
pub record Core : Type 0 where
  pub wills : Map Str WillMessage
  pub published : List WillMessage
  pub next : ℕ

abbrev pub core : WillHandler → Core
core h = record { wills = h.wills; published = h.published; next = h.next_serial }

-- The moves between them. A will is published only when it is registered, and is not afterwards.
pub data Move (a b : Core) : Type 0 where
  stays : b ≡ a → Move a b
  drops : (c : Str) → b ≡ record a { wills = delete c a.wills } → Move a b
  clears : b ≡ record a { wills = [] } → Move a b
  adds :
      (c : Str) (w : WillMessage)
      → w.serial ≡ a.next
      → b ≡ record a { wills = insert c w a.wills; next = a.next + 1 }
      → Move a b
  publishes :
      (c : Str) (w u : WillMessage)
      → lookup c a.wills ≡ some w
      → w.serial ≡ u.serial
      → b ≡ record a { wills = delete c a.wills; published = a.published ++ u ∷ [] }
      → Move a b

pub core-stop_timer : (c : Str) (h : WillHandler) → core (stop_timer c h) ≡ core h
unfolding stop_timer
core-stop_timer c h = go (lookup c h.cancel)
  where
    go : (o : Option ℕ) → core (stop_found o c h) ≡ core h
    go none = refl
    go (some id) = refl

-- Publishing a will whose registration at `c` is dropped.
publish-Move :
    (c : Str) (w u : WillMessage) (h h2 : WillHandler)
    → lookup c h.wills ≡ some w
    → w.serial ≡ u.serial
    → core h2 ≡ record (core h) { wills = delete c h.wills }
    → Move (core h) (core (publish_will_message u h2))
unfolding publish_will_message
publish-Move c w u h h2 e f k = elim (Bool-cases (h2.has_callback && ltb 0 (length u.topic))) [
  | inl b ↦
      publishes c w u e f
        (rw b (ap (λ (a : Core). record a { published = a.published ++ u ∷ [] }) k))
  | inr b ↦ drops c (rw b k)
]

trigger-Move :
    (c : Str) (conn : Option ℕ) (h : WillHandler) → Move (core h) (core (trigger_will c conn h))
unfolding trigger_will
trigger-Move c conn h = go (lookup c h.wills) refl
  where
    go :
        (o : Option WillMessage)
        → lookup c h.wills ≡ o
        → Move (core h) (core (elim o [ none ↦ h | some will ↦ trigger_found will c conn h ]))
    go none e = stays refl
    go (some w) e = elim (Bool-cases (is_foreign conn w.conn)) [
      | inl f ↦ rw f (stays refl)
      | inr f ↦ rw f (elim (Bool-cases (is_some (lookup c h.cancel))) [
        | inl a ↦ rw a (stays refl)
        | inr a ↦ rw a (elim (Bool-cases (w.delay == 0)) [
          | inl d ↦ rw d (publish-Move c w w h (record h { wills = delete c h.wills }) e refl refl)
          | inr d ↦ rw d (stays refl)
        ])
      ])
    ]

delay_passed-Move : (id : ℕ) (h : WillHandler) → Move (core h) (core (delay_passed id h))
unfolding delay_passed
delay_passed-Move id h = go (lookup id h.timers)
  where
    ours :
        (t : Timer) (o : Option WillMessage)
        → lookup t.client_id h.wills ≡ o
        → Move (core h) (
            core (
              let ended' = record h { timers = delete id h.timers } in
              if is_current o t.will
              then publish_will_message t.will (record ended' {
                wills = delete t.client_id h.wills;
                cancel = delete t.client_id h.cancel;
              })
              else ended'))
    ours t none e = stays refl
    ours t (some w) e = elim (Bool-cases (w.serial == t.will.serial)) [
      | inl b ↦
          rw b (
            publish-Move t.client_id w t.will h _ e ((nat_beq_iff w.serial t.will.serial).0 b) refl)
      | inr b ↦ rw b (stays refl)
    ]

    go :
        (o : Option Timer)
        → Move (core h) (core (elim o [ none ↦ h | some t ↦ timer_fires id t h ]))
    go none = stays refl
    go (some t) = ours t (lookup t.client_id h.wills) refl

context_done-Move : (id : ℕ) (h : WillHandler) → Move (core h) (core (context_done id h))
unfolding context_done
context_done-Move id h = go (lookup id h.timers)
  where
    go :
        (o : Option Timer)
        → Move (core h) (
            core (elim o [
              | none ↦ h
              | some t ↦ if t.cancelled then record h { timers = delete id h.timers } else h
            ]))
    go none = stays refl
    go (some t) = elim (Bool-cases t.cancelled) [
      | inl b ↦ rw b (stays refl)
      | inr b ↦ rw b (stays refl)
    ]

fire-Move : (c : Str) (h : WillHandler) → Move (core h) (core (fire_will c h))
unfolding fire_will
fire-Move c h = go (lookup c h.wills) refl
  where
    go :
        (o : Option WillMessage)
        → lookup c h.wills ≡ o
        → Move (core h) (
            core (elim o [
              | none ↦ h
              | some will ↦
                  let h1 = stop_timer c h in
                  if not (is_some (lookup c h.cancel))
                  then h
                  else publish_will_message will (record h1 { wills = delete c h1.wills })
            ]))
    go none e = stays refl
    go (some w) e = elim (Bool-cases (is_some (lookup c h.cancel))) [
      | inl b ↦ rw b (
          publish-Move c w w h _ e refl
            (ap (λ (a : Core). record a { wills = delete c a.wills }) (core-stop_timer c h)))
      | inr b ↦ rw b (stays refl)
    ]

abbrev pub as_registered : WillMessage → ℕ → WillMessage
as_registered w n = record w { serial = n; properties = relayable_will_properties w.properties }

pub core-register_will :
    (w : WillMessage) (h : WillHandler)
    → core (register_will w h) ≡ record (core h) {
      wills = insert w.client_id (as_registered w h.next_serial) h.wills;
      next = h.next_serial + 1;
    }
unfolding register_will
core-register_will w h =
    ap
      (λ (a : Core). record a {
        wills = insert w.client_id (as_registered w a.next) a.wills;
        next = a.next + 1;
      })
      (core-stop_timer w.client_id h)

register-Move : (w : WillMessage) (h : WillHandler) → Move (core h) (core (register_will w h))
register-Move w h = adds w.client_id (as_registered w h.next_serial) refl (core-register_will w h)

-- Every step is one move.
pub step-Move : (e : Event) (h : WillHandler) → Move (core h) (core (step e h))
unfolding step set_publish_callback cancel_will remove_will stop
step-Move callback_set h = stays refl
step-Move (registered w) h = register-Move w h
step-Move (triggered c conn) h = trigger-Move c conn h
step-Move (passed id) h = delay_passed-Move id h
step-Move (ended id) h = context_done-Move id h
step-Move (fired c) h = fire-Move c h
step-Move (cancelled c) h =
    drops c (ap (λ (a : Core). record a { wills = delete c a.wills }) (core-stop_timer c h))
step-Move (removed c) h = drops c (core-stop_timer c (record h { wills = delete c h.wills }))
step-Move stopped h = clears refl
