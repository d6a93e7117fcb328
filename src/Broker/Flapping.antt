-- ===== src/Broker/Flapping.antt =====
-- broker/flapping.go: throttling of clients that reconnect too often. A time is a number, and the
-- zero time is 0; `none` is the panic of an index out of range.
pub mod Window
pub mod Bypass
pub mod Penalty
use shark_mqtt.Prelude.{
  ℕ, zero, suc, ◌+◌, ◌-◌, ◌*◌, ◌/◌, Bool, true, false, not, ◌&&◌, ◌||◌, Option, none, some, List,
  [], ◌∷◌, ◌++◌, Str, length, take, drop, any, is_some, ltb, leb, ◌==◌, nat_eq, str_eq,
  if◌then◌else◌,
}
use shark_mqtt.Prelude.Map.{Map, lookup, insert, delete}

-- Durations and limits, after `applyDefaults`. `max_tracked` is none where the bound is disabled.
pub record FlappingConfig : Type 0 where
  pub enabled : Bool
  pub max_connects : ℕ
  pub sliding_window : ℕ
  pub penalty_duration : ℕ
  pub max_tracked : Option ℕ

-- `applyDefaults`: seconds are 10^9; a negative MaxTrackedClients is none here.
unfoldable pub apply_defaults : FlappingConfig → FlappingConfig
apply_defaults c = record {
  enabled = c.enabled;
  max_connects = (if ltb c.max_connects 1 then 1 else c.max_connects);
  sliding_window = (if c.sliding_window == 0 then 10_000_000_000 else c.sliding_window);
  penalty_duration = (if c.penalty_duration == 0 then 60_000_000_000 else c.penalty_duration);
  max_tracked = elim c.max_tracked [ none ↦ none | some n ↦ some (if n == 0 then 10_000 else n) ];
}

pub data FlappingDecision : Type 0 where
  flap_allow flap_rejected flap_exceeded : FlappingDecision

-- `capacity` is `cap(e.stamps)`.
pub record FlappingEntry : Type 0 where
  pub stamps : List ℕ
  pub capacity : ℕ
  pub head : ℕ
  pub penalized_until : ℕ
  pub last_seen : ℕ
  pub alias : List Str

pub record FlappingDetector : Type 0 where
  pub cfg : FlappingConfig
  pub keys : Map Str FlappingEntry

unfoldable pub new_flapping_detector : FlappingConfig → FlappingDetector
new_flapping_detector cfg = record { cfg = apply_defaults cfg; keys = [] }

-- How far `e.head` moves: the leading stamps that are before the cutoff.
unfoldable pub expired : ℕ → List ℕ → ℕ
expired cutoff [] = 0
expired cutoff (t ∷ ts) = let more = suc (expired cutoff ts) in if ltb t cutoff then more else 0

unfoldable pub set_at : ℕ → ℕ → List ℕ → Option (List ℕ)
set_at i x [] = none
set_at zero x (y ∷ ys) = some (x ∷ ys)
set_at (suc i) x (y ∷ ys) = elim (set_at i x ys) [ none ↦ none | some zs ↦ some (y ∷ zs) ]

-- Moving the head, and the compaction of a dead prefix that dominates.
unfoldable pub advance : ℕ → FlappingEntry → FlappingEntry
advance cutoff e =
    let head = e.head + expired cutoff (drop e.head e.stamps) in
    if ltb 0 head && leb (length e.stamps) (head * 2)
    then record e { stamps = drop head e.stamps; head = 0 }
    else record e { head = head }

-- The rest of `record` on the entry, with its verdict.
unfoldable pub stamp : ℕ → ℕ → FlappingEntry → Option (FlappingEntry × Bool)
stamp max now e =
    elim (if ltb (length e.stamps) e.capacity
      then some (e.stamps ++ now ∷ [])
      else set_at e.head now e.stamps) [
        | none ↦ none
        | some stamps ↦
            some (record e { stamps = stamps; last_seen = now }, ltb max (length stamps - e.head))
      ]

unfoldable pub record_entry : FlappingConfig → ℕ → FlappingEntry → Option (FlappingEntry × Bool)
record_entry cfg now e = stamp cfg.max_connects now (advance (now - cfg.sliding_window) e)

-- The candidates in the order of their last use. Equal ones stay in the order of the list, where Go
-- leaves their order open.
unfoldable pub insert_aged : Str × ℕ → List (Str × ℕ) → List (Str × ℕ)
insert_aged x [] = x ∷ []
insert_aged x (y ∷ ys) = let rest = y ∷ insert_aged x ys in if ltb x.1 y.1 then x ∷ y ∷ ys else rest

unfoldable pub by_age : Map Str FlappingEntry → List (Str × ℕ)
by_age [] = []
by_age ((k, e) ∷ m) = insert_aged (k, e.last_seen) (by_age m)

unfoldable pub delete_all : List (Str × ℕ) → Map Str FlappingEntry → Map Str FlappingEntry
delete_all [] m = m
delete_all ((k, _) ∷ ks) m = delete_all ks (delete k m)

unfoldable pub evict_oldest : Map Str FlappingEntry → Map Str FlappingEntry
evict_oldest m =
    let quarter = length m / 4 in
    let target = (if ltb quarter 1 then 1 else quarter) in
    let capped = (if ltb (length m) target then length m else target) in
    delete_all (take capped (by_age m)) m

abbrev pub new_entry : ℕ → FlappingEntry
new_entry capacity = record {
  stamps = [];
  capacity = capacity;
  head = 0;
  penalized_until = 0;
  last_seen = 0;
  alias = [];
}

abbrev pub is_full : Option ℕ → ℕ → Bool
is_full none n = false
is_full (some max) n = ltb 0 max && leb max n

-- The entry of a key, made if there is none, and the table in which there is room for it.
unfoldable pub entry_for : Str → FlappingDetector → FlappingEntry × Map Str FlappingEntry
entry_for key d = elim (lookup key d.keys) [
  | some e ↦ (e, d.keys)
  | none ↦ (
    new_entry (d.cfg.max_connects + 1),
    if is_full d.cfg.max_tracked (length d.keys) then evict_oldest d.keys else d.keys,
  )
]

-- `record(key, now)`
unfoldable pub record_key : Str → ℕ → FlappingDetector → Option (FlappingDetector × Bool)
record_key key now d =
    if length key == 0
    then some (d, false)
    else (let (e, keys) = entry_for key d in
        elim (record_entry d.cfg now e) [
          | none ↦ none
          | some (e', exceeded) ↦ some (record d { keys = insert key e' keys }, exceeded)
        ])

abbrev pub or_blank : Option FlappingEntry → FlappingEntry
or_blank none = new_entry 0
or_blank (some e) = e

unfoldable pub penalize : Str → ℕ → FlappingDetector → FlappingDetector
penalize key now d = if length key == 0 then d else record d {
  keys =
      insert key
        (record (or_blank (lookup key d.keys)) {
          penalized_until = now + d.cfg.penalty_duration;
          stamps = [];
          head = 0;
          last_seen = now;
        })
        d.keys;
}

unfoldable pub contains : List Str → Str → Bool
contains list s = any (λ v. v == s) list

abbrev pub add_alias : Str → FlappingEntry → FlappingEntry
add_alias k e = record e { alias = (if contains e.alias k then e.alias else e.alias ++ k ∷ []) }

unfoldable pub link : Str → Str → FlappingDetector → FlappingDetector
link a b d = if length a == 0 || length b == 0 || a == b then d else elim (lookup a d.keys) [
  | none ↦ d
  | some ea ↦ elim (lookup b d.keys) [
    | none ↦ d
    | some eb ↦ record d { keys = insert b (add_alias a eb) (insert a (add_alias b ea) d.keys) }
  ]
]

-- Whether the key is in its penalty, with the entry.
unfoldable pub in_penalty : Str → ℕ → FlappingDetector → Option FlappingEntry
in_penalty key now d = if length key == 0 then none else elim (lookup key d.keys) [
  | none ↦ none
  | some e ↦ if ltb now e.penalized_until then some e else none
]

-- The rest of `Check` once neither key is in a penalty.
unfoldable pub check_fresh :
    Str → Str → ℕ → FlappingDetector → Option (FlappingDetector × FlappingDecision)
check_fresh ip client now d = elim (record_key ip now d) [
  | none ↦ none
  | some (d', ip_exceeded) ↦ elim (record_key client now d') [
    | none ↦ none
    | some (d'', id_exceeded) ↦
        let linked = link ip client d'' in
        some (
          if ip_exceeded || id_exceeded
          then (penalize client now (penalize ip now linked), flap_exceeded)
          else (linked, flap_allow))
  ]
]

abbrev pub seen : Str → ℕ → FlappingEntry → FlappingDetector → FlappingDetector
seen key now e d = record d { keys = insert key (record e { last_seen = now }) d.keys }

-- `Check(ip, clientID)` at the time `now`
unfoldable pub check :
    Str → Str → ℕ → FlappingDetector → Option (FlappingDetector × FlappingDecision)
check ip client now d =
    if not d.cfg.enabled then some (d, flap_allow) else elim (in_penalty ip now d) [
      | some e ↦ some (seen ip now e d, flap_rejected)
      | none ↦ elim (in_penalty client now d) [
        | some e ↦ some (seen client now e d, flap_rejected)
        | none ↦ check_fresh ip client now d
      ]
    ]

-- `PenaltyRemaining(key)`, `none` for `(0, false)`
unfoldable pub penalty_remaining : Str → ℕ → FlappingDetector → Option ℕ
penalty_remaining key now d =
    if not d.cfg.enabled
    then none
    else elim (in_penalty key now d) [ none ↦ none | some e ↦ some (e.penalized_until - now) ]

unfoldable pub delete_keys : List Str → Map Str FlappingEntry → Map Str FlappingEntry
delete_keys [] m = m
delete_keys (k ∷ ks) m = delete_keys ks (delete k m)

unfoldable pub reset : Str → FlappingDetector → FlappingDetector
reset key d = elim (lookup key d.keys) [
  | none ↦ record d { keys = delete key d.keys }
  | some e ↦ record d { keys = delete key (delete_keys e.alias d.keys) }
]

unfoldable pub tracked : FlappingDetector → ℕ
tracked d = length d.keys

-- An entry that `Cleanup` keeps: a penalty that lasts, or a stamp in the window.
unfoldable pub is_alive : ℕ → ℕ → FlappingEntry → Bool
is_alive now cutoff e =
    ltb now e.penalized_until || any (λ t. not (ltb t cutoff)) (drop e.head e.stamps)

unfoldable pub clean : ℕ → ℕ → Map Str FlappingEntry → Map Str FlappingEntry
clean now cutoff [] = []
clean now cutoff ((k, e) ∷ m) =
    let rest = clean now cutoff m in if is_alive now cutoff e then (k, e) ∷ rest else rest

unfoldable pub cleanup : ℕ → FlappingDetector → FlappingDetector
cleanup now d = record d { keys = clean now (now - d.cfg.sliding_window) d.keys }
