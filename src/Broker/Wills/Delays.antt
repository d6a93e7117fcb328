-- ===== src/Broker/Wills/Delays.antt =====
-- Every call and every timer of broker/will_handler.go keeps what is said of the wills that wait.
use shark_mqtt.Prelude.{
  ℕ, ◌+◌, ◌<◌, ◌≡◌, ◌≢◌, ◌∙◌, refl, sym, ap, Bool, true, false, not, Option, none, some, List, [],
  ◌∷◌, Str, is_some, ◌==◌, nat_eq, nat_beq, nat_beq_iff, str_eq, str_beq, str_beq_iff,
  if◌then◌else◌, arith, Bool-cases, inl, inr, beq_refl, none-ne-some, some-eq-some,
}
use mathlib.Core.Path.{subst}
use shark_mqtt.Prelude.Map.{Map, lookup, insert, delete, lookup-insert, lookup-delete}
use shark_mqtt.Broker.Wills.{
  WillMessage, Timer, WillHandler, Event, callback_set, registered, triggered, passed, ended, fired,
  cancelled, removed, stopped, step, run, publish_will_message, stop_timer, stop_found,
  register_will, trigger_will, trigger_found, is_foreign, delay_passed, timer_fires, is_current,
  context_done, fire_will, cancel_will, remove_will, stop, set_publish_callback, new_will_handler,
}
use shark_mqtt.Broker.Wills.Armed.{
  IsArmed, running, keep-IsArmed, cancel_all_old, Drops, Drops-IsArmed, stop_timer-Drops,
  rewill-Drops, lookup-delete_other, publish-IsArmed, delete_timer_old, end-IsArmed,
}

delay_passed-IsArmed : (id : ℕ) (h : WillHandler) → IsArmed h → IsArmed (delay_passed id h)
unfolding delay_passed
delay_passed-IsArmed id h a = go (lookup id h.timers) refl
  where
    current : (t : Timer) → Bool
    current t = is_current (lookup t.client_id h.wills) t.will

    taken :
        (t : Timer)
        → lookup id h.timers ≡ some t
        → Drops t.client_id h (record h {
          timers = delete id h.timers;
          wills = delete t.client_id h.wills;
          cancel = delete t.client_id h.cancel;
        })
    taken t e = record {
      cancel = λ d. lookup-delete t.client_id d h.cancel;
      wills = λ d b. lookup-delete_other t.client_id d h.wills b;
      timers = λ d j b f.
          let (w, _, u, _) = a.armed d j f in
          lookup-delete id j h.timers ∙ elim (Bool-cases (nat_beq id j)) [
            | inl n ↦
                let there : lookup j h.timers ≡ some t =
                  subst (λ k. lookup k h.timers ≡ some t) ((nat_beq_iff id j).0 n) e in
                let same : t.client_id ≡ d = ap (λ x. x.client_id) (some-eq-some (sym there ∙ u)) in
                absurd (ground (arith, b, same, str_beq_iff t.client_id d))
            | inr n ↦ rw n refl
          ];
      made_before = delete_timer_old h id a;
    }

    nobody :
        (t : Timer)
        → lookup id h.timers ≡ some t
        → current t ≡ false
        → (d : Str) → lookup d h.cancel ≢ some id
    nobody t e off d f =
        let (w, r, u, _) = a.armed d id f in
        let same : t ≡ running d w = some-eq-some (sym e ∙ u) in
        let on : current (running d w) ≡ true = rw r (beq_refl w.serial) in
        cc (on, off, ap current same)

    go :
        (o : Option Timer)
        → lookup id h.timers ≡ o
        → IsArmed (elim o [ none ↦ h | some t ↦ timer_fires id t h ])
    go none e = a
    go (some t) e = elim (Bool-cases (current t)) [
      | inl b ↦ rw b (publish-IsArmed t.will _ (Drops-IsArmed t.client_id h _ a (taken t e)))
      | inr b ↦ rw b (end-IsArmed id h a (nobody t e b))
    ]

context_done-IsArmed : (id : ℕ) (h : WillHandler) → IsArmed h → IsArmed (context_done id h)
unfolding context_done
context_done-IsArmed id h a = go (lookup id h.timers) refl
  where
    nobody :
        (t : Timer)
        → lookup id h.timers ≡ some t
        → t.cancelled ≡ true
        → (d : Str) → lookup d h.cancel ≢ some id
    nobody t e off d f =
        let (w, _, u, _) = a.armed d id f in
        let same : t ≡ running d w = some-eq-some (sym e ∙ u) in
        cc (off, ap (λ x. x.cancelled) same)

    go :
        (o : Option Timer)
        → lookup id h.timers ≡ o
        → IsArmed (elim o [
          | none ↦ h
          | some t ↦ if t.cancelled then record h { timers = delete id h.timers } else h
        ])
    go none e = a
    go (some t) e = elim (Bool-cases t.cancelled) [
      | inl b ↦ rw b (end-IsArmed id h a (nobody t e b))
      | inr b ↦ rw b a
    ]

-- What `trigger_will` does to a will that is not armed, with and without a delay.
abbrev pub arm : Str → WillMessage → WillHandler → WillHandler
arm c w h = record h {
  cancel = insert c h.next_timer h.cancel;
  timers = insert h.next_timer (running c w) h.timers;
  next_timer = h.next_timer + 1;
}

arm-IsArmed :
    (c : Str) (w : WillMessage) (h : WillHandler)
    → IsArmed h
    → lookup c h.wills ≡ some w
    → w.delay ≢ 0
    → IsArmed (arm c w h)
arm-IsArmed c w h a r n = record {
  armed = λ d j e. elim (Bool-cases (str_beq c d)) [
    | inl b ↦
        let same : c ≡ d = (str_beq_iff c d).0 b in
        let new : h.next_timer ≡ j =
          some-eq-some (rw b at (sym (lookup-insert c d h.next_timer h.cancel) ∙ e)) in
        (
          w,
          subst (λ x. lookup x h.wills ≡ some w) same r,
          rw ((nat_beq_iff h.next_timer j).1 new) at
                (lookup-insert h.next_timer j (running c w) h.timers)
              ∙ ap (λ x. some (running x w)) same,
          n,
        )
    | inr b ↦
        let was : lookup d h.cancel ≡ some j =
          rw b at (sym (lookup-insert c d h.next_timer h.cancel) ∙ e) in
        let (v, s, t, m) = a.armed d j was in
        let other : nat_beq h.next_timer j ≡ false =
          ground (arith, a.made_before j (running d v) t, nat_beq_iff h.next_timer j) in
        (v, s, lookup-insert h.next_timer j (running c w) h.timers ∙ rw other t, m)
  ];
  made_before = λ j t e. elim (Bool-cases (nat_beq h.next_timer j)) [
    | inl b ↦ omega (arith, (nat_beq_iff h.next_timer j).0 b)
    | inr b ↦ omega (
      arith,
      a.made_before j t (rw b at (sym (lookup-insert h.next_timer j (running c w) h.timers) ∙ e)),
    )
  ];
}

trigger_will-IsArmed :
    (c : Str) (conn : Option ℕ) (h : WillHandler) → IsArmed h → IsArmed (trigger_will c conn h)
unfolding trigger_will
trigger_will-IsArmed c conn h a = go (lookup c h.wills) refl
  where
    free : (o : Option ℕ) → is_some o ≡ false → o ≡ none
    free none e = refl
    free (some id) e = absurd (ground (arith, e))

    dropped : lookup c h.cancel ≡ none → Drops c h (record h { wills = delete c h.wills })
    dropped e = record {
      cancel = λ d. elim (Bool-cases (str_beq c d)) [
        | inl b ↦ rw b (subst (λ x. lookup x h.cancel ≡ none) ((str_beq_iff c d).0 b) e)
        | inr b ↦ rw b refl
      ];
      wills = λ d b. lookup-delete_other c d h.wills b;
      timers = λ d j b f. refl;
      made_before = a.made_before;
    }

    go :
        (o : Option WillMessage)
        → lookup c h.wills ≡ o
        → IsArmed (elim o [ none ↦ h | some will ↦ trigger_found will c conn h ])
    go none e = a
    go (some w) e = elim (Bool-cases (is_foreign conn w.conn)) [
      | inl f ↦ rw f a
      | inr f ↦ rw f (elim (Bool-cases (is_some (lookup c h.cancel))) [
        | inl g ↦ rw g a
        | inr g ↦ rw g (elim (Bool-cases (w.delay == 0)) [
          | inl d ↦
              rw d
                (publish-IsArmed w _ (Drops-IsArmed c h _ a (dropped (free (lookup c h.cancel) g))))
          | inr d ↦ rw d (arm-IsArmed c w h a e (λ z. ground (arith, d, z)))
        ])
      ])
    ]

fire_will-IsArmed : (c : Str) (h : WillHandler) → IsArmed h → IsArmed (fire_will c h)
unfolding fire_will
fire_will-IsArmed c h a = go (lookup c h.wills)
  where
    go :
        (o : Option WillMessage)
        → IsArmed (elim o [
          | none ↦ h
          | some will ↦
              let h1 = stop_timer c h in
              if not (is_some (lookup c h.cancel))
              then h
              else publish_will_message will (record h1 { wills = delete c h1.wills })
        ])
    go none = a
    go (some w) =
        let h1 = stop_timer c h in
        let left =
          rewill-Drops c h h1 (delete c h1.wills) (stop_timer-Drops c h a)
            (λ d b. lookup-delete_other c d h1.wills b) in
        elim (Bool-cases (is_some (lookup c h.cancel))) [
          | inl b ↦ rw b (publish-IsArmed w _ (Drops-IsArmed c h _ a left))
          | inr b ↦ rw b a
        ]

stop_timer_rewilled :
    (c : Str) (h : WillHandler) (wills : Map Str WillMessage)
    → stop_timer c (record h { wills = wills }) ≡ record (stop_timer c h) { wills = wills }
unfolding stop_timer
stop_timer_rewilled c h wills = go (lookup c h.cancel)
  where
    go :
        (o : Option ℕ)
        → stop_found o c (record h { wills = wills }) ≡ record (stop_found o c h) { wills = wills }
    go none = refl
    go (some id) = refl

step-IsArmed : (e : Event) (h : WillHandler) → IsArmed h → IsArmed (step e h)
unfolding step set_publish_callback register_will cancel_will remove_will stop
step-IsArmed callback_set h a = record { armed = a.armed; made_before = a.made_before }
step-IsArmed (registered w) h a =
    let k = stop_timer-Drops w.client_id h a in
    Drops-IsArmed w.client_id h _ a (record {
      cancel = k.cancel;
      wills = λ d b.
          lookup-insert w.client_id d _ (stop_timer w.client_id h).wills ∙ rw b (k.wills d b);
      timers = k.timers;
      made_before = k.made_before;
    })
step-IsArmed (triggered c conn) h a = trigger_will-IsArmed c conn h a
step-IsArmed (passed id) h a = delay_passed-IsArmed id h a
step-IsArmed (ended id) h a = context_done-IsArmed id h a
step-IsArmed (fired c) h a = fire_will-IsArmed c h a
step-IsArmed (cancelled c) h a =
    let h1 = stop_timer c h in
    Drops-IsArmed c h _ a (
      rewill-Drops c h h1 (delete c h1.wills) (stop_timer-Drops c h a)
        (λ d b. lookup-delete_other c d h1.wills b))
step-IsArmed (removed c) h a =
    let h1 = stop_timer c h in
    subst IsArmed (sym (stop_timer_rewilled c h (delete c h.wills))) (
      Drops-IsArmed c h _ a (
        rewill-Drops c h h1 (delete c h.wills) (stop_timer-Drops c h a)
          (λ d b. lookup-delete_other c d h.wills b ∙ sym ((stop_timer-Drops c h a).wills d b))))
step-IsArmed stopped h a =
    keep-IsArmed h (stop h) a (λ d j e. absurd (unfold lookup in none-ne-some e))
      (cancel_all_old (λ j. j < h.next_timer) h.cancel h.timers a.made_before)

-- In every state that can be reached.
pub run-IsArmed : (es : List Event) (h : WillHandler) → IsArmed h → IsArmed (run es h)
unfolding run
run-IsArmed [] h a = a
run-IsArmed (e ∷ es) h a = run-IsArmed es (step e h) (step-IsArmed e h a)

pub reached-IsArmed : (es : List Event) → IsArmed (run es new_will_handler)
reached-IsArmed es = run-IsArmed es new_will_handler (
    unfold new_will_handler lookup in
    record {
      armed = λ c id e. absurd (none-ne-some e);
      made_before = λ id t e. absurd (none-ne-some e);
    })
