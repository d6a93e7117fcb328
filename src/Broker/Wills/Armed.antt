-- ===== src/Broker/Wills/Armed.antt =====
-- The delays of broker/will_handler.go: a client whose will is waiting has a timer that runs, with the will
-- that is registered.
use shark_mqtt.Prelude.{
  ℕ, ◌<◌, ◌≡◌, ◌≢◌, ◌∙◌, refl, sym, ap, true, false, ◌&&◌, Option, none, some, [], ◌∷◌, Str, length,
  ltb, nat_eq, nat_beq, nat_beq_iff, str_eq, str_beq, str_beq_iff, if◌then◌else◌, arith, Bool-cases,
  inl, inr, none-ne-some, some-eq-some,
}
use mathlib.Core.Path.{subst}
use shark_mqtt.Prelude.Map.{Map, lookup, delete, lookup-insert, lookup-delete}
use shark_mqtt.Broker.Wills.{
  WillMessage, Timer, WillHandler, publish_will_message, stop_timer, stop_found, cancel_timer,
  cancel_all,
}

-- The timer of a client's will that waits.
abbrev pub running : Str → WillMessage → Timer
running c w = record { client_id = c; will = w; cancelled = false }

pub record IsArmed (h : WillHandler) : Type 0 where
  pub armed :
      (c : Str) (id : ℕ)
      → lookup c h.cancel ≡ some id
      → (w : WillMessage) × (lookup c h.wills ≡ some w)
        × (lookup id h.timers ≡ some (running c w))
        × (w.delay ≢ 0)
  pub made_before : (id : ℕ) (t : Timer) → lookup id h.timers ≡ some t → id < h.next_timer

-- What is armed afterwards was so before, with the same will and timer.
pub keep-IsArmed :
    (h g : WillHandler)
    → IsArmed h
    → ((d : Str) (j : ℕ)
        → lookup d g.cancel ≡ some j
        → (lookup d h.cancel ≡ some j)
          × (lookup d g.wills ≡ lookup d h.wills)
          × (lookup j g.timers ≡ lookup j h.timers))
    → ((j : ℕ) (t : Timer) → lookup j g.timers ≡ some t → j < g.next_timer)
    → IsArmed g
keep-IsArmed h g a k b = record {
  armed = λ d j e.
      let (was, wills, timers) = k d j e in
      let (w, r, t, n) = a.armed d j was in (w, wills ∙ r, timers ∙ t, n);
  made_before = b;
}

lookup-cancel_timer :
    (id j : ℕ) (ts : Map ℕ Timer)
    → nat_beq id j ≡ false
    → lookup j (cancel_timer id (lookup id ts) ts) ≡ lookup j ts
lookup-cancel_timer id j ts b = go (lookup id ts)
  where
    go : (o : Option Timer) → lookup j (cancel_timer id o ts) ≡ lookup j ts
    go none = refl
    go (some t) = lookup-insert id j (record t { cancelled = true }) ts ∙ rw b refl

-- A cancellation makes no timer.
cancel_timer_old :
    (P : ℕ → Type 0) (id : ℕ) (ts : Map ℕ Timer)
    → ((j : ℕ) (t : Timer) → lookup j ts ≡ some t → P j)
    → (j : ℕ) (t : Timer) → lookup j (cancel_timer id (lookup id ts) ts) ≡ some t
    → P j
cancel_timer_old P id ts h j t e = go (lookup id ts) refl e
  where
    go : (o : Option Timer) → lookup id ts ≡ o → lookup j (cancel_timer id o ts) ≡ some t → P j
    go none f e = h j t e
    go (some u) f e = elim (Bool-cases (nat_beq id j)) [
      | inl b ↦ subst P ((nat_beq_iff id j).0 b) (h id u f)
      | inr b ↦ h j t (rw b at (sym (lookup-insert id j (record u { cancelled = true }) ts) ∙ e))
    ]

pub cancel_all_old :
    (P : ℕ → Type 0) (cs : Map Str ℕ) (ts : Map ℕ Timer)
    → ((j : ℕ) (t : Timer) → lookup j ts ≡ some t → P j)
    → (j : ℕ) (t : Timer) → lookup j (cancel_all ts cs) ≡ some t
    → P j
cancel_all_old P [] ts h j t e = h j t e
cancel_all_old P ((_, id) ∷ cs) ts h j t e =
    cancel_all_old P cs (cancel_timer id (lookup id ts) ts) (cancel_timer_old P id ts h) j t e

-- Nothing is armed for `c` any more, and nothing changes for the others.
pub record Drops (c : Str) (h g : WillHandler) : Type 0 where
  pub cancel : (d : Str) → lookup d g.cancel ≡ (if str_beq c d then none else lookup d h.cancel)
  pub wills : (d : Str) → str_beq c d ≡ false → lookup d g.wills ≡ lookup d h.wills
  pub timers :
      (d : Str) (j : ℕ)
      → str_beq c d ≡ false
      → lookup d h.cancel ≡ some j
      → lookup j g.timers ≡ lookup j h.timers
  pub made_before : (j : ℕ) (t : Timer) → lookup j g.timers ≡ some t → j < g.next_timer

pub Drops-IsArmed : (c : Str) (h g : WillHandler) → IsArmed h → Drops c h g → IsArmed g
Drops-IsArmed c h g a k = keep-IsArmed h g a (λ d j e. others d j e) k.made_before
  where
    others :
        (d : Str) (j : ℕ)
        → lookup d g.cancel ≡ some j
        → (lookup d h.cancel ≡ some j)
          × (lookup d g.wills ≡ lookup d h.wills)
          × (lookup j g.timers ≡ lookup j h.timers)
    others d j e = elim (Bool-cases (str_beq c d)) [
      | inl b ↦ absurd (none-ne-some (rw b at (sym (k.cancel d) ∙ e)))
      | inr b ↦
          let was : lookup d h.cancel ≡ some j = rw b at (sym (k.cancel d) ∙ e) in
          (was, k.wills d b, k.timers d j b was)
    ]

-- No two clients have a timer in common.
apart :
    (h : WillHandler) (c d : Str) (i j : ℕ)
    → IsArmed h
    → lookup c h.cancel ≡ some i
    → lookup d h.cancel ≡ some j
    → str_beq c d ≡ false
    → nat_beq i j ≡ false
apart h c d i j a e f b = elim (Bool-cases (nat_beq i j)) [
  | inr n ↦ n
  | inl n ↦
      let (w, _, t, _) = a.armed c i e in
      let (v, _, u, _) = a.armed d j f in
      let there : lookup j h.timers ≡ some (running c w) =
        subst (λ k. lookup k h.timers ≡ some (running c w)) ((nat_beq_iff i j).0 n) t in
      let same : c ≡ d = ap (λ x. x.client_id) (some-eq-some (sym there ∙ u)) in
      absurd (ground (arith, b, same, str_beq_iff c d))
]

pub stop_timer-Drops : (c : Str) (h : WillHandler) → IsArmed h → Drops c h (stop_timer c h)
unfolding stop_timer
stop_timer-Drops c h a = go (lookup c h.cancel) refl
  where
    go : (o : Option ℕ) → lookup c h.cancel ≡ o → Drops c h (stop_found o c h)
    go none e = record {
      cancel = λ d. elim (Bool-cases (str_beq c d)) [
        | inl b ↦ rw b (subst (λ x. lookup x h.cancel ≡ none) ((str_beq_iff c d).0 b) e)
        | inr b ↦ rw b refl
      ];
      wills = λ d b. refl;
      timers = λ d j b f. refl;
      made_before = a.made_before;
    }
    go (some id) e = record {
      cancel = λ d. lookup-delete c d h.cancel;
      wills = λ d b. refl;
      timers = λ d j b f. lookup-cancel_timer id j h.timers (apart h c d id j a e f b);
      made_before = cancel_timer_old (λ j. j < h.next_timer) id h.timers a.made_before;
    }

-- A change of the registration of `c` on top.
pub rewill-Drops :
    (c : Str) (h g : WillHandler) (wills : Map Str WillMessage)
    → Drops c h g
    → ((d : Str) → str_beq c d ≡ false → lookup d wills ≡ lookup d g.wills)
    → Drops c h (record g { wills = wills })
rewill-Drops c h g wills k e = record {
  cancel = k.cancel;
  wills = λ d b. e d b ∙ k.wills d b;
  timers = k.timers;
  made_before = k.made_before;
}

pub lookup-delete_other :
    (c d : Str) (m : Map Str WillMessage) → str_beq c d ≡ false → lookup d (delete c m) ≡ lookup d m
lookup-delete_other c d m b = lookup-delete c d m ∙ rw b refl

-- Publishing changes nothing that is armed.
pub publish-IsArmed :
    (w : WillMessage) (h : WillHandler) → IsArmed h → IsArmed (publish_will_message w h)
unfolding publish_will_message
publish-IsArmed w h a = elim (Bool-cases (h.has_callback && ltb 0 (length w.topic))) [
  | inl b ↦ rw b (record { armed = a.armed; made_before = a.made_before })
  | inr b ↦ rw b a
]

pub delete_timer_old :
    (h : WillHandler) (id : ℕ)
    → IsArmed h
    → (j : ℕ) (t : Timer) → lookup j (delete id h.timers) ≡ some t
    → j < h.next_timer
delete_timer_old h id a j t e = elim (Bool-cases (nat_beq id j)) [
  | inl b ↦ absurd (none-ne-some (rw b at (sym (lookup-delete id j h.timers) ∙ e)))
  | inr b ↦ a.made_before j t (rw b at (sym (lookup-delete id j h.timers) ∙ e))
]

-- A timer that is nobody's ends.
pub end-IsArmed :
    (id : ℕ) (h : WillHandler)
    → IsArmed h
    → ((d : Str) → lookup d h.cancel ≢ some id)
    → IsArmed (record h { timers = delete id h.timers })
end-IsArmed id h a nobody =
    keep-IsArmed h (record h { timers = delete id h.timers }) a
      (λ d j e. (
        e,
        refl,
        lookup-delete id j h.timers ∙ elim (Bool-cases (nat_beq id j)) [
          | inl b ↦
              absurd (
                nobody d (subst (λ k. lookup d h.cancel ≡ some k) (sym ((nat_beq_iff id j).0 b)) e))
          | inr b ↦ rw b refl
        ],
      ))
      (delete_timer_old h id a)
