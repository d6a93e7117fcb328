-- ===== src/Examples/Throttling.antt =====
-- Limits on connections and publishes at concrete times.
use shark_mqtt.Prelude.{
  ◌+◌, ◌-◌, ◌≤◌, ◌<◌, ◌≡◌, refl, true, Option, none, some, [], ◌∷◌, ◌++◌, Str, codes, length, ltb,
  arith,
}
use shark_mqtt.Prelude.Map.{lookup, insert}
use shark_mqtt.Broker.RateLimit.{ConnRateLimiter, PublishRateTracker, max_in_window, allow}
use shark_mqtt.Broker.RateLimit.Connections.{accepted, in_window-accepted, allow_iff}
use shark_mqtt.Broker.RateLimit.Publishes.{accepted_count, accepted_count-le}
use shark_mqtt.Broker.Flapping.{
  FlappingConfig, FlappingEntry, FlappingDetector, new_entry, record_entry, stamp, advance, expired,
  check, check_fresh, record_key, entry_for, link, penalize, penalty_remaining, in_penalty,
  flap_exceeded, FlappingDecision, contains,
}
use shark_mqtt.Broker.Flapping.Window.{IsEntry, recorded, record_entry_lem, live, in_window}
use shark_mqtt.Broker.Flapping.Bypass.{all_pass, all_pass_lem}
use shark_mqtt.Broker.Flapping.Penalty.{check_exceeded}

abbrev limiter : ConnRateLimiter
limiter = record { window = 10; ceiling = some 2; timestamps = [] }

in_window-accepted_example :
    shark_mqtt.Broker.RateLimit.Connections.in_window 9 10 (accepted (1 ∷ 2 ∷ 3 ∷ []) limiter)
    ≤ max_in_window 2
in_window-accepted_example =
    in_window-accepted (1 ∷ 2 ∷ 3 ∷ []) 9 2 limiter refl (omega arith) (omega arith)

abbrev tracker : PublishRateTracker
tracker = record { window = 10; max_rate = 2; count = 0; window_start = 0 }

accepted_count-le_example : accepted_count (7 ∷ 8 ∷ 12 ∷ 13 ∷ []) tracker ≤ 4
accepted_count-le_example =
    accepted_count-le (7 ∷ 8 ∷ 12 ∷ 13 ∷ []) 5 tracker (λ e. cc) (omega arith)

abbrev three_in_ten : FlappingConfig
three_in_ten = record {
  enabled = true;
  max_connects = 3;
  sliding_window = 10;
  penalty_duration = 60;
  max_tracked = none;
}

abbrev two_attempts : FlappingEntry
two_attempts = record (new_entry 4) { stamps = 100 ∷ 108 ∷ []; last_seen = 108 }

has_room : length (advance (109 - 10) two_attempts).stamps < 4
unfolding advance expired
has_room = omega arith

record_entry_example :
    (e' : FlappingEntry) × (record_entry three_in_ten 109 two_attempts
      ≡ some (e', ltb 3 (in_window (109 - 10) (recorded two_attempts) + 1)))
    × (recorded e' ≡ live (109 - 10) (recorded two_attempts) ++ 109 ∷ [])
    × IsEntry e'
record_entry_example =
    record_entry_lem three_in_ten 109 two_attempts (omega arith) (omega arith) has_room

-- The attempts at 100, 108, 109 and 111: the first has left the window.
abbrev stuck : FlappingEntry
stuck = record (new_entry 4) { stamps = 100 ∷ 108 ∷ 109 ∷ 111 ∷ []; head = 1; last_seen = 111 }

all_pass_example : all_pass three_in_ten (112 ∷ 113 ∷ 114 ∷ 115 ∷ 116 ∷ []) stuck ≡ true
all_pass_example =
    all_pass_lem three_in_ten 108 (112 ∷ 113 ∷ 114 ∷ 115 ∷ 116 ∷ []) stuck refl
      (omega arith, omega arith, refl, (109 ∷ 111 ∷ [], refl)) (omega arith)

abbrev strict : FlappingConfig
strict = record three_in_ten { max_connects = 1 }

abbrev address : Str
address = codes "10.0.0.1"

abbrev client : Str
client = codes "ann"

abbrev once_seen : FlappingEntry
once_seen = record (new_entry 2) { stamps = 100 ∷ []; last_seen = 100 }

abbrev before : FlappingDetector
before = record { cfg = strict; keys = (address, once_seen) ∷ (client, once_seen) ∷ [] }

abbrev detector_of : Option (FlappingDetector × FlappingDecision) → FlappingDetector
detector_of none = before
detector_of (some (d, _)) = d

tripped :
    check address client 101 before
    ≡ some (detector_of (check address client 101 before), flap_exceeded)
unfolding check in_penalty check_fresh record_key entry_for record_entry stamp advance expired link
    contains penalize lookup insert
tripped = refl

check_exceeded_example :
    let d' = detector_of (check address client 101 before) in
    (penalty_remaining address 101 d' ≡ some 60) × (penalty_remaining client 101 d' ≡ some 60)
check_exceeded_example =
    check_exceeded address client 101 before (detector_of (check address client 101 before)) refl
      (omega arith) (λ e. cc) (λ e. cc) tripped
