-- ===== src/Protocol/Topic/Filters.antt =====
-- `validate_topic_filter`, which looks at neighbouring bytes, against a description by levels.
use shark_mqtt.Prelude.{
  ℕ, ◌≡◌, refl, List, [], ◌∷◌, ◌++◌, Str, any, false, ltb, Bool, true, ◌==◌, nat_eq, str_eq, arith,
  Bool-cases, inl, inr, if◌then◌else◌, ◌&&◌, ◌||◌, not, Option, none, some, length, length-append,
  ◌≤◌, ◌↔◌, ◌∙◌, str_beq_iff,
}
use shark_mqtt.Protocol.Topic.{
  slash, hash, plus, is_wildcard, split_from, split_topic, not_slash, validate_from,
  validate_topic_filter, match_topic, match_sys_protected, is_system, first_level,
}
use shark_mqtt.Protocol.Topic.Split.{first, first-split}
use shark_mqtt.Protocol.Topic.Matching.{Matches, hash_last, match_levels_iff}

-- A level has no wildcard, or is "+", or is "#" and stands last.
abbrev pub level_ok : Bool → Str → Bool
level_ok last l = not (any is_wildcard l) || l == plus || (last && l == hash)

abbrev is_nil : List Str → Bool
is_nil [] = true
is_nil (_ ∷ _) = false

unfoldable pub levels_ok : List Str → Bool
levels_ok [] = true
levels_ok (l ∷ ls) = level_ok (is_nil ls) l && levels_ok ls

any-append : (l m : Str) → any is_wildcard (l ++ m) ≡ (any is_wildcard l || any is_wildcard m)
any-append [] m = refl
any-append (b ∷ l) m = ground (arith, any-append l m)

-- A level that has a wildcard and another byte is wrong.
level_bad :
    (last : Bool) (l : Str) → any is_wildcard l ≡ true → 2 ≤ length l → level_ok last l ≡ false
level_bad last [] w h = absurd (omega arith)
level_bad last (a ∷ []) w h = absurd (omega arith)
level_bad last (a ∷ b ∷ l) w h = ground arith

-- It stays so, however it goes on.
split_from_bad :
    (level s : Str)
    → any is_wildcard level ≡ true
    → 2 ≤ length level
    → levels_ok (split_from level s) ≡ false
unfolding levels_ok split_from
split_from_bad level [] w h = rw (level_bad true level w h)
split_from_bad level (b ∷ s) w h = elim (Bool-cases (b == slash)) [
  | inl e ↦ rw e (rw (level_bad _ level w h))
  | inr e ↦ rw e (
      split_from_bad (level ++ b ∷ []) s (rw any-append (ground arith))
        (omega (arith, length-append level (b ∷ []))))
]

is_nil-split_from : (level s : Str) → is_nil (split_from level s) ≡ false
unfolding split_from
is_nil-split_from level [] = ground arith
is_nil-split_from level (b ∷ s) = ground (arith, is_nil-split_from (level ++ b ∷ []) s)

-- `level` has been read and has no wildcard; `prev` is the byte before `s`.
validate_from-eq :
    (prev : Option ℕ) (level s : Str)
    → any is_wildcard level ≡ false
    → not_slash prev ≡ ltb 0 (length level)
    → validate_from prev s ≡ levels_ok (split_from level s)
unfolding validate_from split_from levels_ok
validate_from-eq prev level [] w h = ground arith
validate_from-eq prev (a ∷ l) (b ∷ s) w h = ground (
  arith,
  split_from_bad ((a ∷ l) ++ b ∷ []) s,
  any-append (a ∷ l) (b ∷ []),
  length-append (a ∷ l) (b ∷ []),
  validate_from-eq (some b) [] s,
  validate_from-eq (some b) ((a ∷ l) ++ b ∷ []) s,
)
validate_from-eq prev [] (b ∷ []) w h = ground arith
validate_from-eq prev [] (b ∷ c ∷ s) w h = ground (
  arith,
  split_from_bad (b ∷ c ∷ []) s,
  is_nil-split_from [] s,
  validate_from-eq (some c) [] s,
  validate_from-eq (some b) [] (c ∷ s),
  validate_from-eq (some b) (b ∷ []) (c ∷ s),
)

-- A filter is valid exactly if it is not empty and each of its levels has no wildcard, or is "+",
-- or is "#" and stands last.
pub validate_topic_filter-eq :
    (f : Str)
    → validate_topic_filter f ≡ (if length f == 0 then false else levels_ok (split_topic f))
unfolding validate_topic_filter split_topic
validate_topic_filter-eq f = rw (validate_from-eq none [] f refl refl)

levels_ok→hash_last : (ls : List Str) → levels_ok ls ≡ true → hash_last ls ≡ true
unfolding levels_ok hash_last
levels_ok→hash_last [] h = refl
levels_ok→hash_last (l ∷ []) h = ground arith
levels_ok→hash_last (l ∷ m ∷ ls) h =
    ground (arith, levels_ok→hash_last (m ∷ ls), str_beq_iff l hash)

levels_iff :
    (f t : Str)
    → validate_topic_filter f ≡ true
    → (match_topic f t ≡ true) ↔ Matches (split_topic f) (split_topic t)
unfolding match_topic
levels_iff f t h =
    match_levels_iff (split_topic f) (split_topic t)
      (levels_ok→hash_last (split_topic f) (ground (arith, validate_topic_filter-eq f)))

-- The first level is a wildcard.
abbrev pub wild_first : List Str → Bool
wild_first [] = false
wild_first (l ∷ _) = l == hash || l == plus

wild_first_first : (ls : List Str) → wild_first ls ≡ (first ls == hash || first ls == plus)
wild_first_first [] = ground arith
wild_first_first (l ∷ ls) = refl

-- A valid filter matches a topic by `MatchTopic` exactly if their levels are in the relation of section
-- 4.7.1; by `matchSysProtected`, exactly if besides, as section 4.7.2 asks, the filter does not begin
-- with a wildcard level where the topic begins with "$".
pub match_topic_iff :
    (f t : Str)
    → validate_topic_filter f ≡ true
    → ((match_topic f t ≡ true) ↔ Matches (split_topic f) (split_topic t))
      × ((match_sys_protected f t ≡ true) ↔ (
          Matches (split_topic f) (split_topic t)
          × (is_system t ≡ true → wild_first (split_topic f) ≡ false)))
unfolding match_sys_protected
match_topic_iff f t h =
    let (to, from) = levels_iff f t h in
    let wild : wild_first (split_topic f) ≡ (first_level f == hash || first_level f == plus) =
      wild_first_first (split_topic f) ∙ rw first-split refl in
    (
      (to, from),
      (
        λ m. (to (ground (arith, m)), λ s. ground (arith, m, s, wild)),
        λ (m, k). ground (arith, from m, k, wild),
      ),
    )
