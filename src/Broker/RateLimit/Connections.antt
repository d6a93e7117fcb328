-- ===== src/Broker/RateLimit/Connections.antt =====
-- How many connections the limiter of broker/rate_limit.go accepts in a window.
use shark_mqtt.Prelude.{
  ℕ, ◌+◌, ◌≤◌, ◌≡◌, refl, ap, Bool, true, Option, none, some, List, [], ◌∷◌, ◌++◌, All, length,
  length-append, leb, ltb, if◌then◌else◌, arith, Bool-cases, inl, inr,
}
use shark_mqtt.Broker.RateLimit.{ConnRateLimiter, prune, max_in_window, allow, allow_limited}

-- How many of the times lie in the window that ends at `now`.
unfoldable pub in_window : ℕ → ℕ → List ℕ → ℕ
in_window now window [] = 0
in_window now window (t ∷ ts) = (if ltb now (t + window) then 1 else 0) + in_window now window ts

in_window-append :
    (now window : ℕ) (ts us : List ℕ)
    → in_window now window (ts ++ us) ≡ in_window now window ts + in_window now window us
unfolding in_window
in_window-append now window [] us = omega arith
in_window-append now window (t ∷ ts) us = ground (arith, in_window-append now window ts us)

in_window-le : (now window : ℕ) (ts : List ℕ) → in_window now window ts ≤ length ts
unfolding in_window
in_window-le now window [] = omega arith
in_window-le now window (t ∷ ts) = ground (arith, in_window-le now window ts)

-- What is pruned has left the window, then and later.
in_window-prune :
    (at now window : ℕ) (ts : List ℕ)
    → at ≤ now
    → in_window now window (prune at window ts) ≡ in_window now window ts
unfolding in_window prune
in_window-prune at now window [] l = refl
in_window-prune at now window (t ∷ ts) l = ground (arith, in_window-prune at now window ts, l)

length-prune-le : (at window : ℕ) (ts : List ℕ) → length (prune at window ts) ≤ length ts
unfolding prune
length-prune-le at window [] = omega arith
length-prune-le at window (t ∷ ts) = ground (arith, length-prune-le at window ts)

-- The times among those of the attempts that are accepted.
unfoldable pub accepted : List ℕ → ConnRateLimiter → List ℕ
accepted [] r = []
accepted (now ∷ attempts) r =
    let (r', ok) = allow now r in let rest = accepted attempts r' in if ok then now ∷ rest else rest

allow_lem :
    (ceiling now : ℕ) (r : ConnRateLimiter)
    → r.ceiling ≡ some ceiling
    → allow now r ≡ allow_limited ceiling now r
unfolding allow
allow_lem ceiling now r e =
    ap
      (λ (o : Option ℕ). elim o as (λ x. ConnRateLimiter × Bool) [
        | none ↦ (r, true)
        | some c ↦ allow_limited c now r
      ])
      e

accepted_bound :
    (attempts : List ℕ) (now ceiling : ℕ) (r : ConnRateLimiter)
    → r.ceiling ≡ some ceiling
    → length r.timestamps ≤ max_in_window ceiling
    → All (λ t. t ≤ now) attempts
    → in_window now r.window r.timestamps + in_window now r.window (accepted attempts r)
      ≤ max_in_window ceiling
unfolding accepted
accepted_bound [] now ceiling r e k h =
    unfold in_window in omega (arith, in_window-le now r.window r.timestamps, k)
accepted_bound (t ∷ attempts) now ceiling r e k h =
    let left = prune t r.window r.timestamps in
    let same = in_window-prune t now r.window r.timestamps h.0 in
    let shorter = length-prune-le t r.window r.timestamps in
    rw (allow_lem ceiling t r e) (elim (Bool-cases (leb (max_in_window ceiling) (length left))) [
      | inl full ↦ rw full (
          omega (
            arith,
            same,
            accepted_bound attempts now ceiling (record r { timestamps = left }) e
                (omega (arith, shorter, k)) h.1,
          ))
      | inr room ↦
          let more : ConnRateLimiter = record r { timestamps = left ++ t ∷ [] } in
          let fits : length more.timestamps ≤ max_in_window ceiling =
            ground (arith, room, length-append left (t ∷ [])) in
          let ih = accepted_bound attempts now ceiling more e fits h.1 in
          rw room (counted_on t now r.window (accepted attempts more) left same ih)
    ])
  where
    counted_on :
        (t now window : ℕ) (rest left : List ℕ)
        → in_window now window left ≡ in_window now window r.timestamps
        → in_window now window (left ++ t ∷ []) + in_window now window rest ≤ max_in_window ceiling
        → in_window now window r.timestamps + in_window now window (t ∷ rest)
          ≤ max_in_window ceiling
    counted_on t now window rest left same ih =
        unfold in_window in omega (arith, same, ih, in_window-append now window left (t ∷ []))

-- Of any attempts, at most the ceiling (1 at least) are accepted in a window: for each time `now`
-- that is not before an attempt, so many of the accepted ones at most lie in the window that ends
-- then. (The limiter starts with no more timestamps than that; a new one has none.)
pub in_window-accepted :
    (attempts : List ℕ) (now ceiling : ℕ) (r : ConnRateLimiter)
    → r.ceiling ≡ some ceiling
    → length r.timestamps ≤ max_in_window ceiling
    → All (λ t. t ≤ now) attempts
    → in_window now r.window (accepted attempts r) ≤ max_in_window ceiling
in_window-accepted attempts now ceiling r e k h =
    omega (arith, accepted_bound attempts now ceiling r e k h)

abbrev pub InOrder : List ℕ → Type 0
InOrder [] = Unit
InOrder (t ∷ ts) = All (λ u. t ≤ u) ts × InOrder ts

in_window_whole :
    (now window t : ℕ) (us : List ℕ)
    → ltb now (t + window) ≡ true
    → All (λ u. t ≤ u) us
    → in_window now window us ≡ length us
unfolding in_window
in_window_whole now window t [] e k = refl
in_window_whole now window t (u ∷ us) e k =
    ground (arith, e, k.0, in_window_whole now window t us e k.1)

length-prune :
    (now window : ℕ) (ts : List ℕ)
    → InOrder ts
    → length (prune now window ts) ≡ in_window now window ts
unfolding prune in_window
length-prune now window [] h = refl
length-prune now window (t ∷ ts) h = elim (Bool-cases (ltb now (t + window))) [
  | inl e ↦ rw e (omega (arith, in_window_whole now window t ts e h.0))
  | inr e ↦ rw e (omega (arith, length-prune now window ts h.1))
]

-- An attempt is accepted exactly when less than the ceiling (1 at least) of the timestamps that
-- the limiter keeps lie in the window that ends now.
pub allow_iff :
    (now ceiling : ℕ) (r : ConnRateLimiter)
    → r.ceiling ≡ some ceiling
    → InOrder r.timestamps
    → (allow now r).1 ≡ ltb (in_window now r.window r.timestamps) (max_in_window ceiling)
allow_iff now ceiling r e h =
    rw (allow_lem ceiling now r e) (ground (arith, length-prune now r.window r.timestamps h))
