-- ===== src/Broker/RateLimit.antt =====
-- broker/rate_limit.go: the limits on connections and on a client's publishes. Times are in
-- nanoseconds and handed in; the mutex makes each call one step.
pub mod Connections
pub mod Publishes
use shark_mqtt.Prelude.{
  ℕ, ◌+◌, Bool, true, false, Option, none, some, List, [], ◌∷◌, ◌++◌, length, leb, ltb, ◌==◌,
  nat_eq, if◌then◌else◌,
}

-- `ceiling` is what `math.Ceil(maxRate * window.Seconds())` gives, none for a rate that is 0 or
-- less.
pub record ConnRateLimiter : Type 0 where
  pub window : ℕ
  pub ceiling : Option ℕ
  pub timestamps : List ℕ

unfoldable pub new_conn_rate_limiter : ℕ → ConnRateLimiter
new_conn_rate_limiter window = record { window = window; ceiling = none; timestamps = [] }

-- The loop that prunes: what stands from the first timestamp on that is after the cutoff.
unfoldable pub prune : ℕ → ℕ → List ℕ → List ℕ
prune now window [] = []
prune now window (ts ∷ rest) =
    let further = prune now window rest in if ltb now (ts + window) then ts ∷ rest else further

unfoldable pub max_in_window : ℕ → ℕ
max_in_window ceiling = if ltb ceiling 1 then 1 else ceiling

abbrev pub allow_limited : ℕ → ℕ → ConnRateLimiter → ConnRateLimiter × Bool
allow_limited ceiling now r =
    let timestamps = prune now r.window r.timestamps in
    if leb (max_in_window ceiling) (length timestamps)
    then (record r { timestamps = timestamps }, false)
    else (record r { timestamps = timestamps ++ now ∷ [] }, true)

unfoldable pub allow : ℕ → ConnRateLimiter → ConnRateLimiter × Bool
allow now r = elim r.ceiling [ none ↦ (r, true) | some ceiling ↦ allow_limited ceiling now r ]

unfoldable pub set_rate : Option ℕ → ConnRateLimiter → ConnRateLimiter
set_rate ceiling r = record r { ceiling = ceiling }

-- `max_rate` is 0 for 0 and less.
pub record PublishRateTracker : Type 0 where
  pub window : ℕ
  pub max_rate : ℕ
  pub count : ℕ
  pub window_start : ℕ

unfoldable pub new_publish_rate_tracker : ℕ → ℕ → PublishRateTracker
new_publish_rate_tracker now window = record {
  window = window;
  max_rate = 0;
  count = 0;
  window_start = now;
}

-- A new window starts when the old one is over: `now - windowStart >= window` on integers.
abbrev pub roll : ℕ → PublishRateTracker → PublishRateTracker
roll now t =
    if leb (t.window_start + t.window) now then record t { count = 0; window_start = now } else t

abbrev pub counted : PublishRateTracker → PublishRateTracker × Bool
counted t = if leb t.max_rate t.count then (t, false) else (record t { count = t.count + 1 }, true)

unfoldable pub allow_publish : ℕ → PublishRateTracker → PublishRateTracker × Bool
allow_publish now t = if t.max_rate == 0 then (t, true) else counted (roll now t)

unfoldable pub set_max_rate : ℕ → PublishRateTracker → PublishRateTracker
set_max_rate rate t = record t { max_rate = rate }
