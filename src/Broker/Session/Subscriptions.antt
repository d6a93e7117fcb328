-- ===== src/Broker/Session/Subscriptions.antt =====
-- The subscriptions of a session in broker/session.go, and how a topic is matched against them.
pub mod Sorted
pub mod Winner
pub mod Answers
pub mod Local
use shark_mqtt.Prelude.{
  ℕ, ◌*◌, ◌-◌, ◌/◌, Bool, true, false, not, ◌&&◌, ◌||◌, Option, none, some, List, [], ◌∷◌, Str, ltb,
  leb, length, is_some, ◌==◌, nat_eq, str_eq, if◌then◌else◌,
}
use shark_mqtt.Prelude.Map.{Map, lookup, insert, delete}
use shark_mqtt.Protocol.Topic.{match_topic, match_sys_protected}
use shark_mqtt.Broker.TopicTree.Shared.{is_shared_subscription, parse_shared_filter, str_ltb}

pub record TopicFilter : Type 0 where
  pub topic : Str
  pub qos : ℕ
  pub no_local : Bool
  pub retain_as_published : Bool
  pub retain_handling : ℕ
  pub subscription_identifier : Option ℕ

pub record SubscriptionOptions : Type 0 where
  pub qos : ℕ
  pub no_local : Bool
  pub retain_as_published : Bool
  pub retain_handling : ℕ
  pub subscription_identifier : Option ℕ

abbrev pub zero_options : SubscriptionOptions
zero_options = record {
  qos = 0;
  no_local = false;
  retain_as_published = false;
  retain_handling = 0;
  subscription_identifier = none;
}

-- The part of `Session` that holds subscriptions and activity; times are in nanoseconds,
-- `sub_options` is none where the map is nil.
pub record Subscriptions : Type 0 where
  pub subscriptions : Map Str ℕ
  pub sub_options : Option (Map Str SubscriptionOptions)
  pub keep_alive : ℕ
  pub last_activity : ℕ

unfoldable pub update_activity : ℕ → Subscriptions → Subscriptions
update_activity now s = record s { last_activity = now }

unfoldable pub is_expired : ℕ → Subscriptions → Bool
is_expired now s =
    not (s.keep_alive == 0) && ltb (s.keep_alive * 1000000000 * 3 / 2) (now - s.last_activity)

-- The options of subscriptions that were made without.
unfoldable pub plain_options : Map Str ℕ → Map Str SubscriptionOptions
plain_options [] = []
plain_options ((topic, qos) ∷ subs) =
    (topic, record zero_options { qos = qos }) ∷ plain_options subs

abbrev pub options_or_plain :
    Subscriptions → Option (Map Str SubscriptionOptions) → Map Str SubscriptionOptions
options_or_plain s none = plain_options s.subscriptions
options_or_plain s (some m) = m

unfoldable pub add_subscription_filter : TopicFilter → Subscriptions → Subscriptions
add_subscription_filter f s =
    let options : SubscriptionOptions = record {
      qos = f.qos;
      no_local = f.no_local;
      retain_as_published = f.retain_as_published;
      retain_handling = f.retain_handling;
      subscription_identifier = f.subscription_identifier;
    } in
    record s {
      subscriptions = insert f.topic f.qos s.subscriptions;
      sub_options = some (insert f.topic options (options_or_plain s s.sub_options));
    }

unfoldable pub add_subscription : Str → ℕ → Subscriptions → Subscriptions
add_subscription topic qos = add_subscription_filter (record {
  topic = topic;
  qos = qos;
  no_local = false;
  retain_as_published = false;
  retain_handling = 0;
  subscription_identifier = none;
})

abbrev pub forget :
    Str → Option (Map Str SubscriptionOptions) → Option (Map Str SubscriptionOptions)
forget topic none = none
forget topic (some m) = some (delete topic m)

unfoldable pub remove_subscription : Str → Subscriptions → Subscriptions
remove_subscription topic s = record s {
  subscriptions = delete topic s.subscriptions;
  sub_options = forget topic s.sub_options;
}

unfoldable pub has_subscription : Str → Subscriptions → Bool
has_subscription topic s = is_some (lookup topic s.subscriptions)

-- `s.SubOptions[pattern]`, in both forms of the expression.
abbrev pub read_options : Str → Option (Map Str SubscriptionOptions) → Option SubscriptionOptions
read_options pattern none = none
read_options pattern (some m) = lookup pattern m

abbrev pub or_zero : Option SubscriptionOptions → SubscriptionOptions
or_zero none = zero_options
or_zero (some o) = o

unfoldable pub options_of : Str → Subscriptions → SubscriptionOptions
options_of pattern s = or_zero (read_options pattern s.sub_options)

-- The filter that a pattern is matched by; none for a pattern that is skipped.
abbrev pub filter_part : Option (Str × Str) → Option Str
filter_part none = none
filter_part (some (_, filter)) = some filter

unfoldable pub real_pattern : Str → Option Str
real_pattern pattern =
    if is_shared_subscription pattern
    then filter_part (parse_shared_filter pattern)
    else some pattern

unfoldable pub hits : Bool → Str → Str → Bool
hits sys_protect topic pattern = elim (real_pattern pattern) [
  | none ↦ false
  | some real ↦
      if sys_protect && not (match_sys_protected real topic) then false else match_topic real topic
]

-- `moreSpecific`
unfoldable pub more_specific : Str → Str → Bool
more_specific candidate current = str_ltb candidate current

-- The variables of the loop of `matchSubscriptions`.
pub record Best : Type 0 where
  pub matched : Bool
  pub qos : ℕ
  pub opts : SubscriptionOptions
  pub pattern : Str
  pub identifiers : List ℕ

abbrev pub add_identifier : Option ℕ → List ℕ → List ℕ
add_identifier none ids = ids
add_identifier (some i) ids = i ∷ ids

-- The body of the loop for a pattern that matches. (The identifiers are in reverse.)
unfoldable pub take_match : Str → ℕ → SubscriptionOptions → Best → Best
take_match pattern qos opts b =
    let ids = add_identifier opts.subscription_identifier b.identifiers in
    if not b.matched || (ltb b.qos qos || qos == b.qos && more_specific pattern b.pattern)
    then record { matched = true; qos = qos; opts = opts; pattern = pattern; identifiers = ids }
    else record b { matched = true; identifiers = ids }

unfoldable pub match_loop : Bool → Str → Subscriptions → Map Str ℕ → Best → Best
match_loop sys topic s [] b = b
match_loop sys topic s ((pattern, qos) ∷ subs) b =
    match_loop sys topic s subs
      (if hits sys topic pattern then take_match pattern qos (options_of pattern s) b else b)

abbrev pub no_match : Best
no_match = record { matched = false; qos = 0; opts = zero_options; pattern = []; identifiers = [] }

-- `slices.Sort` and `slices.Compact`
unfoldable pub insert_sorted : ℕ → List ℕ → List ℕ
insert_sorted i [] = i ∷ []
insert_sorted i (j ∷ js) = let rest = insert_sorted i js in if leb i j then i ∷ j ∷ js else j ∷ rest

unfoldable pub sort : List ℕ → List ℕ
sort [] = []
sort (i ∷ is) = insert_sorted i (sort is)

unfoldable pub compact : List ℕ → List ℕ
compact [] = []
compact (i ∷ []) = i ∷ []
compact (i ∷ j ∷ js) = let rest = compact (j ∷ js) in if i == j then rest else i ∷ rest

unfoldable pub compact_identifiers : List ℕ → List ℕ
compact_identifiers ids = if ltb 1 (length ids) then compact (sort ids) else ids

pub record Match : Type 0 where
  pub matched : Bool
  pub qos : ℕ
  pub opts : SubscriptionOptions
  pub identifiers : List ℕ

unfoldable pub match_subscriptions : Str → Bool → Subscriptions → Match
match_subscriptions topic sys s =
    let b = match_loop sys topic s s.subscriptions no_match in
    record {
      matched = b.matched;
      qos = b.qos;
      opts = b.opts;
      identifiers = compact_identifiers b.identifiers;
    }

unfoldable pub matches_subscription : Str → Subscriptions → Match
matches_subscription topic s = match_subscriptions topic false s

unfoldable pub matches_retained_subscription : Str → Subscriptions → Match
matches_retained_subscription topic s = match_subscriptions topic true s

abbrev pub is_no_local : Option SubscriptionOptions → Bool
is_no_local none = false
is_no_local (some o) = o.no_local

-- The loop of `AllowsLocalPublish`.
unfoldable pub local_loop : Str → Subscriptions → Map Str ℕ → Bool → Bool
local_loop topic s [] matched = not matched
local_loop topic s ((pattern, _) ∷ subs) matched =
    let none_yet = local_loop topic s subs matched in
    let seen = local_loop topic s subs true in
    if not (match_topic pattern topic)
    then none_yet
    else if is_no_local (read_options pattern s.sub_options)
    then seen
    else true

unfoldable pub allows_local_publish : Str → Subscriptions → Bool
allows_local_publish topic s = local_loop topic s s.subscriptions false
