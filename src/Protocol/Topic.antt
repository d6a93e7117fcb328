-- ===== src/Protocol/Topic.antt =====
-- protocol/topic.go, and the two functions of broker/topic_tree.go that match one filter with one
-- topic. A topic is its bytes; a level is the bytes between two slashes.
pub mod Split
pub mod Matching
pub mod Filters
use shark_mqtt.Prelude.{
  ℕ, zero, suc, ◌≡◌, Bool, true, false, not, ◌&&◌, ◌||◌, Option, none, some, List, [], ◌∷◌, ◌++◌,
  length, any, Str, ◌==◌, nat_eq, str_eq, if◌then◌else◌, ltb,
}

abbrev pub slash : ℕ
slash = b'/'

abbrev pub hash : Str
hash = b'#' ∷ []

abbrev pub plus : Str
plus = b'+' ∷ []

abbrev pub is_wildcard : ℕ → Bool
is_wildcard b = b == b'#' || b == b'+'

unfoldable pub validate_publish_topic : Str → Bool
validate_publish_topic topic = if length topic == 0 then false else not (any is_wildcard topic)

-- `level` is `topic[start:i]`, and the list is `topic[i:]`.
unfoldable pub split_from : Str → Str → List Str
split_from level [] = level ∷ []
split_from level (b ∷ topic) =
    let cut = level ∷ split_from [] topic in
    let longer = split_from (level ++ b ∷ []) topic in if b == slash then cut else longer

-- `SplitTopic(topic)`, and what `strings.Split(topic, "/")` returns.
unfoldable pub split_topic : Str → List Str
split_topic topic = split_from [] topic

abbrev pub not_slash : Option ℕ → Bool
not_slash none = false
not_slash (some b) = not (b == slash)

abbrev pub first_byte : Str → Option ℕ
first_byte [] = none
first_byte (b ∷ _) = some b

-- The loop at `filter[i]`: `prev` is `filter[i-1]` if there is one.
unfoldable pub validate_from : Option ℕ → Str → Bool
validate_from prev [] = true
validate_from prev (b ∷ filter) =
    let rest = validate_from (some b) filter in
    if b == b'#'
    then (if ltb 0 (length filter) then false else if not_slash prev then false else rest)
    else if b == b'+'
    then (if not_slash prev then false else if not_slash (first_byte filter) then false else rest)
    else rest

unfoldable pub validate_topic_filter : Str → Bool
validate_topic_filter filter = if length filter == 0 then false else validate_from none filter

-- The lists are `patternLevels[i:]` and `topicLevels[i:]`.
unfoldable pub match_levels : List Str → List Str → Bool
match_levels [] topic = length topic == 0
match_levels (p ∷ pattern) [] = p == hash
match_levels (p ∷ pattern) (t ∷ topic) =
    let rest = match_levels pattern topic in
    if p == hash then true else if p == plus then rest else if p == t then rest else false

unfoldable pub match_topic : Str → Str → Bool
match_topic pattern topic = match_levels (split_topic pattern) (split_topic topic)

-- `len(topic) > 0 && topic[0] == '$'`
abbrev pub is_system : Str → Bool
is_system [] = false
is_system (b ∷ _) = b == b'$'

-- `pattern[:strings.IndexByte(pattern, '/')]`, or the whole pattern.
unfoldable pub first_level : Str → Str
first_level [] = []
first_level (b ∷ pattern) = let rest = b ∷ first_level pattern in if b == slash then [] else rest

unfoldable pub match_sys_protected : Str → Str → Bool
match_sys_protected pattern topic =
    let level = first_level pattern in
    if is_system topic && (level == hash || level == plus) then false else match_topic pattern topic
