-- ===== src/Broker/RateLimit/Publishes.antt =====
-- How many publishes the tracker of broker/rate_limit.go accepts.
use shark_mqtt.Prelude.{
  ℕ, ◌+◌, ◌-◌, ◌*◌, ◌≤◌, ◌<◌, ◌≡◌, ◌≢◌, refl, true, false, List, [], ◌∷◌, All, leb, ◌==◌, nat_eq,
  if◌then◌else◌, arith, Bool-cases, inl, inr,
}
use shark_mqtt.Broker.RateLimit.{PublishRateTracker, allow_publish}

-- How many of the publishes are accepted.
unfoldable pub accepted_count : List ℕ → PublishRateTracker → ℕ
accepted_count [] t = 0
accepted_count (now ∷ attempts) t =
    let (t', ok) = allow_publish now t in (if ok then 1 else 0) + accepted_count attempts t'

-- A publish in the window that is not over.
accepted_inside :
    (now : ℕ) (attempts : List ℕ) (t : PublishRateTracker)
    → t.max_rate ≢ 0
    → leb (t.window_start + t.window) now ≡ false
    → accepted_count (now ∷ attempts) t ≡ (
        if leb t.max_rate t.count
        then accepted_count attempts t
        else 1 + accepted_count attempts (record t { count = t.count + 1 }))
unfolding accepted_count allow_publish
accepted_inside now attempts t n inside =
    let limited : (t.max_rate == 0) ≡ false = ground (arith, n) in
    rw limited (
      rw inside (elim (Bool-cases (leb t.max_rate t.count)) [
        | inl full ↦ rw full (omega arith)
        | inr room ↦ rw room refl
      ]))

-- Before the window is over at most what is left of the limit is accepted.
same_window :
    (attempts : List ℕ) (t : PublishRateTracker)
    → t.max_rate ≢ 0
    → All (λ now. now < t.window_start + t.window) attempts
    → accepted_count attempts t ≤ t.max_rate - t.count
same_window [] t n h = unfold accepted_count in omega arith
same_window (now ∷ attempts) t n h =
    let inside : leb (t.window_start + t.window) now ≡ false = ground (arith, h.0) in
    let full = same_window attempts t n h.1 in
    let room = same_window attempts (record t { count = t.count + 1 }) n h.1 in
    rw (accepted_inside now attempts t n inside) (ground (arith, full, room))

-- A publish in a window that is over is counted in a new one.
rolled :
    (now : ℕ) (attempts : List ℕ) (t : PublishRateTracker)
    → t.max_rate ≢ 0
    → leb (t.window_start + t.window) now ≡ true
    → 0 < t.window
    → accepted_count (now ∷ attempts) t
      ≡ accepted_count (now ∷ attempts) (record t { count = 0; window_start = now })
unfolding accepted_count allow_publish
rolled now attempts t n over w =
    let limited : (t.max_rate == 0) ≡ false = ground (arith, n) in
    let begun : leb (now + t.window) now ≡ false = ground (arith, w) in
    rw limited (rw over (rw begun refl))

earlier :
    (from now window : ℕ) (attempts : List ℕ)
    → from ≤ now
    → All (λ at. (from ≤ at) × (at < from + window)) attempts
    → All (λ at. at < now + window) attempts
earlier from now window [] l h = tt
earlier from now window (at ∷ attempts) l h =
    (omega (arith, l, h.0.1), earlier from now window attempts l h.1)

-- At most what is left of the limit in this window, and the limit in one more.
two_windows :
    (attempts : List ℕ) (from : ℕ) (t : PublishRateTracker)
    → t.max_rate ≢ 0
    → All (λ now. (from ≤ now) × (now < from + t.window)) attempts
    → accepted_count attempts t ≤ (t.max_rate - t.count) + t.max_rate
two_windows [] from t n h = unfold accepted_count in omega arith
two_windows (now ∷ attempts) from t n h = elim (Bool-cases (leb (t.window_start + t.window) now)) [
  | inl over ↦
      let fresh : PublishRateTracker = record t { count = 0; window_start = now } in
      let wide : 0 < t.window = omega (arith, h.0) in
      let bound =
        same_window (now ∷ attempts) fresh n
          (omega (arith, wide), earlier from now t.window attempts h.0.0 h.1) in
      omega (arith, rolled now attempts t n over wide, bound)
  | inr inside ↦
      let full = two_windows attempts from t n h.1 in
      let room = two_windows attempts from (record t { count = t.count + 1 }) n h.1 in
      rw (accepted_inside now attempts t n inside) (ground (arith, full, room))
]

-- In any stretch of time as long as the window at most twice the limit is accepted: the stretch
-- meets at most two of the tracker's windows.
pub accepted_count-le :
    (attempts : List ℕ) (from : ℕ) (t : PublishRateTracker)
    → t.max_rate ≢ 0
    → All (λ now. (from ≤ now) × (now < from + t.window)) attempts
    → accepted_count attempts t ≤ 2 * t.max_rate
accepted_count-le attempts from t n h = omega (arith, two_windows attempts from t n h)
