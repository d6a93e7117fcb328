-- ===== src/Broker/Flapping/Window.antt =====
-- The sliding window of broker/flapping.go: what `record` counts.
use shark_mqtt.Prelude.{
  ℕ, zero, suc, ◌+◌, ◌-◌, ◌*◌, ◌≤◌, ◌<◌, ◌≡◌, ◌∙◌, refl, sym, ap, true, ◌&&◌, some, List, [], ◌∷◌,
  ◌++◌, length, drop, ltb, leb, nat_eq, if◌then◌else◌, arith, All, length-append, Bool-cases, inl,
  inr,
}
use mathlib.Core.Path.{subst}
use shark_mqtt.Broker.Flapping.{
  FlappingConfig, FlappingEntry, expired, advance, stamp, record_entry,
}

-- The attempts that an entry remembers, oldest first.
abbrev pub recorded : FlappingEntry → List ℕ
recorded e = drop e.head e.stamps

-- How many of them are in the window, and which.
unfoldable pub in_window : ℕ → List ℕ → ℕ
in_window cutoff [] = 0
in_window cutoff (t ∷ ts) = (if ltb t cutoff then 0 else 1) + in_window cutoff ts

unfoldable pub live : ℕ → List ℕ → List ℕ
live cutoff [] = []
live cutoff (t ∷ ts) = let rest = live cutoff ts in if ltb t cutoff then rest else t ∷ rest

abbrev pub IsAscending : List ℕ → Type 0
IsAscending [] = Unit
IsAscending (t ∷ ts) = All (λ u. t ≤ u) ts × IsAscending ts

live_whole : (cutoff t : ℕ) (ts : List ℕ) → cutoff ≤ t → All (λ u. t ≤ u) ts → live cutoff ts ≡ ts
unfolding live
live_whole cutoff t [] h a = refl
live_whole cutoff t (u ∷ ts) h a = ground (arith, live_whole cutoff t ts h a.1)

drop-expired :
    (cutoff : ℕ) (ts : List ℕ) → IsAscending ts → drop (expired cutoff ts) ts ≡ live cutoff ts
unfolding expired live
drop-expired cutoff [] a = refl
drop-expired cutoff (t ∷ ts) a = ground (arith, drop-expired cutoff ts a.1, live_whole cutoff t ts)

length-live : (cutoff : ℕ) (ts : List ℕ) → length (live cutoff ts) ≡ in_window cutoff ts
unfolding live in_window
length-live cutoff [] = refl
length-live cutoff (t ∷ ts) = ground (arith, length-live cutoff ts)

drop_nil : (n : ℕ) → drop {A = ℕ} n [] ≡ []
drop_nil zero = refl
drop_nil (suc n) = refl

drop-drop : (m n : ℕ) (ts : List ℕ) → drop (m + n) ts ≡ drop n (drop m ts)
drop-drop zero n ts = ap (λ k. drop k ts) (omega arith)
drop-drop (suc m) n [] = drop_nil (suc m + n) ∙ sym (drop_nil n)
drop-drop (suc m) n (t ∷ ts) =
    let step : suc m + n ≡ suc (m + n) = omega arith in rw step (drop-drop m n ts)

length-drop : (n : ℕ) (ts : List ℕ) → length (drop n ts) ≡ length ts - n
length-drop zero ts = omega arith
length-drop (suc n) [] = omega arith
length-drop (suc n) (t ∷ ts) = omega (arith, length-drop n ts)

drop-append : (n : ℕ) (ts us : List ℕ) → n ≤ length ts → drop n (ts ++ us) ≡ drop n ts ++ us
drop-append zero ts us h = refl
drop-append (suc n) [] us h = absurd (omega arith)
drop-append (suc n) (t ∷ ts) us h = drop-append n ts us (omega arith)

expired-le : (cutoff : ℕ) (ts : List ℕ) → expired cutoff ts ≤ length ts
unfolding expired
expired-le cutoff [] = omega arith
expired-le cutoff (t ∷ ts) = ground (arith, expired-le cutoff ts)

-- Moving the head drops what left the window, and compacting changes nothing.
recorded-advance :
    (cutoff : ℕ) (e : FlappingEntry)
    → IsAscending (recorded e)
    → recorded (advance cutoff e) ≡ live cutoff (recorded e)
unfolding advance
recorded-advance cutoff e a =
    let n = expired cutoff (recorded e) in
    let moved : drop (e.head + n) e.stamps ≡ live cutoff (recorded e) =
      drop-drop e.head n e.stamps ∙ drop-expired cutoff (recorded e) a in
    elim (Bool-cases (ltb 0 (e.head + n) && leb (length e.stamps) ((e.head + n) * 2))) [
      | inl b ↦ rw b moved
      | inr b ↦ rw b moved
    ]

-- The head stays inside the buffer.
abbrev pub IsEntry : FlappingEntry → Type 0
IsEntry e = (e.head ≤ length e.stamps) × IsAscending (recorded e)

head-advance :
    (cutoff : ℕ) (e : FlappingEntry)
    → e.head ≤ length e.stamps
    → (advance cutoff e).head ≤ length (advance cutoff e).stamps
unfolding advance
head-advance cutoff e h =
    ground (arith, expired-le cutoff (recorded e), length-drop e.head e.stamps)

capacity-advance : (cutoff : ℕ) (e : FlappingEntry) → (advance cutoff e).capacity ≡ e.capacity
unfolding advance
capacity-advance cutoff e = ground arith

stamp_room :
    (max now : ℕ) (e : FlappingEntry)
    → e.head ≤ length e.stamps
    → length e.stamps < e.capacity
    → stamp max now e
      ≡ some (
        record e { stamps = e.stamps ++ now ∷ []; last_seen = now },
        ltb max (length (recorded e) + 1),
      )
unfolding stamp
stamp_room max now e h r =
    let room : ltb (length e.stamps) e.capacity ≡ true = ground arith in
    let count : length (e.stamps ++ now ∷ []) - e.head ≡ length (recorded e) + 1 =
      omega (arith, length-append e.stamps (now ∷ []), length-drop e.head e.stamps) in
    rw (room, count, stamp) refl

-- The attempts that stay in the window, and a later one behind them.
live_now-All :
    (cutoff now t : ℕ) (ts : List ℕ)
    → t ≤ now
    → All (λ u. t ≤ u) ts
    → All (λ u. t ≤ u) (live cutoff ts ++ now ∷ [])
unfolding live
live_now-All cutoff now t [] h a = (h, tt)
live_now-All cutoff now t (u ∷ ts) h a = elim (Bool-cases (ltb u cutoff)) [
  | inl b ↦ rw b (live_now-All cutoff now t ts h a.1)
  | inr b ↦ rw b (a.0, live_now-All cutoff now t ts h a.1)
]

live_now-IsAscending :
    (cutoff now : ℕ) (ts : List ℕ)
    → IsAscending ts
    → All (λ t. t ≤ now) ts
    → IsAscending (live cutoff ts ++ now ∷ [])
unfolding live
live_now-IsAscending cutoff now [] a h = (tt, tt)
live_now-IsAscending cutoff now (t ∷ ts) a h = elim (Bool-cases (ltb t cutoff)) [
  | inl b ↦ rw b (live_now-IsAscending cutoff now ts a.1 h.1)
  | inr b ↦ rw b (live_now-All cutoff now t ts h.0 a.0, live_now-IsAscending cutoff now ts a.1 h.1)
]

-- For an entry whose head is inside its buffer and whose remembered attempts ascend and are not after
-- `now`, where the buffer has room once the head has moved: an attempt at `now` trips the limit exactly
-- if, with it, more attempts than the limit are in the window. The entry then remembers the attempts in
-- the window and this one, its head is inside its buffer, and the attempts that it remembers ascend.
pub record_entry_lem :
    (cfg : FlappingConfig) (now : ℕ) (e : FlappingEntry)
    → IsEntry e
    → All (λ t. t ≤ now) (recorded e)
    → length (advance (now - cfg.sliding_window) e).stamps < e.capacity
    → (e' : FlappingEntry) × (record_entry cfg now e
        ≡ some (e', ltb cfg.max_connects (in_window (now - cfg.sliding_window) (recorded e) + 1)))
      × (recorded e' ≡ live (now - cfg.sliding_window) (recorded e) ++ now ∷ [])
      × IsEntry e'
unfolding record_entry
record_entry_lem cfg now e (h, a) past r =
    let cutoff = now - cfg.sliding_window in
    let e' = advance cutoff e in
    let inside = head-advance cutoff e h in
    let kept = recorded-advance cutoff e a in
    let remembers : drop e'.head (e'.stamps ++ now ∷ []) ≡ live cutoff (recorded e) ++ now ∷ [] =
      drop-append e'.head e'.stamps (now ∷ []) inside ∙ ap (λ l. l ++ now ∷ []) kept in
    (
      record e' { stamps = e'.stamps ++ now ∷ []; last_seen = now },
      stamp_room cfg.max_connects now e' inside (rw (capacity-advance cutoff e) r)
          ∙ ap
              (λ n. some (
                record e' { stamps = e'.stamps ++ now ∷ []; last_seen = now },
                ltb cfg.max_connects (n + 1),
              ))
              (ap length kept ∙ length-live cutoff (recorded e)),
      remembers,
      (
        omega (arith, inside, length-append e'.stamps (now ∷ [])),
        subst IsAscending (sym remembers) (live_now-IsAscending cutoff now (recorded e) a past),
      ),
    )
