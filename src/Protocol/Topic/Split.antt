-- ===== src/Protocol/Topic/Split.antt =====
-- Splitting a topic into levels loses nothing.
use shark_mqtt.Prelude.{
  ℕ, ◌≡◌, ◌≢◌, refl, sym, ap, ◌∙◌, List, [], ◌∷◌, ◌++◌, append_assoc, append-nil, Str, any, false,
  Bool, ◌==◌, nat_eq, arith, Bool-cases, inl, inr, nat_beq_iff, All,
}
use shark_mqtt.Protocol.Topic.{slash, split_from, split_topic, first_level, is_system}

-- The levels joined by slashes.
unfoldable pub join_levels : List Str → Str
join_levels [] = []
join_levels (l ∷ []) = l
join_levels (l ∷ m ∷ ls) = l ++ slash ∷ join_levels (m ∷ ls)

abbrev pub has_slash : Str → Bool
has_slash = any (λ b. b == slash)

pub split_from-ne-nil : (level s : Str) → split_from level s ≢ []
unfolding split_from
split_from-ne-nil level [] = λ e. cc
split_from-ne-nil level (b ∷ s) = ground (arith, split_from-ne-nil (level ++ b ∷ []) s)

join-cons : (l : Str) (ls : List Str) → ls ≢ [] → join_levels (l ∷ ls) ≡ l ++ slash ∷ join_levels ls
unfolding join_levels
join-cons l [] h = absurd (h refl)
join-cons l (m ∷ ls) h = refl

join-split_from : (level s : Str) → join_levels (split_from level s) ≡ level ++ s
unfolding split_from
join-split_from level [] = unfold join_levels in sym (append-nil level)
join-split_from level (b ∷ s) = elim (Bool-cases (b == slash)) [
  | inl e ↦ rw e (
      rw (join-cons level _ (split_from-ne-nil [] s))
        (rw (join-split_from [] s) (ap (λ c. level ++ c ∷ s) (sym ((nat_beq_iff b slash).0 e)))))
  | inr e ↦ rw e (join-split_from (level ++ b ∷ []) s ∙ append_assoc level (b ∷ []) s)
]

-- Joining the levels of a topic gives the topic back.
pub join-split : (s : Str) → join_levels (split_topic s) ≡ s
unfolding split_topic
join-split s = join-split_from [] s

split_from-plain : (level s : Str) → has_slash s ≡ false → split_from level s ≡ (level ++ s) ∷ []
unfolding split_from
split_from-plain level [] h = rw append-nil
split_from-plain level (b ∷ s) h =
    ground (arith, split_from-plain (level ++ b ∷ []) s, append_assoc level (b ∷ []) s)

split_from-cut :
    (level s t : Str)
    → has_slash s ≡ false
    → split_from level (s ++ slash ∷ t) ≡ (level ++ s) ∷ split_from [] t
unfolding split_from
split_from-cut level [] t h = rw append-nil
split_from-cut level (b ∷ s) t h =
    ground (arith, split_from-cut (level ++ b ∷ []) s t, append_assoc level (b ∷ []) s)

-- Splitting joined levels gives the levels back, where there is a level and none has a slash.
pub split-join :
    (l : Str) (ls : List Str)
    → All (λ m. has_slash m ≡ false) (l ∷ ls)
    → split_topic (join_levels (l ∷ ls)) ≡ l ∷ ls
unfolding split_topic join_levels
split-join l [] (h, _) = split_from-plain [] l h
split-join l (m ∷ ls) (h, hs) =
    split_from-cut [] l (join_levels (m ∷ ls)) h ∙ ap (λ ms. l ∷ ms) (split-join m ls hs)

-- No level of a split topic has a slash.
split_from-All :
    (level s : Str) → has_slash level ≡ false → All (λ m. has_slash m ≡ false) (split_from level s)
unfolding split_from
split_from-All level [] h = (h, tt)
split_from-All level (b ∷ s) h = elim (Bool-cases (b == slash)) [
  | inl e ↦ rw e (h, split_from-All [] s refl)
  | inr e ↦ rw e (split_from-All (level ++ b ∷ []) s (any-snoc level b h e))
]
  where
    any-snoc :
        (l : Str) (c : ℕ)
        → has_slash l ≡ false
        → (c == slash) ≡ false
        → has_slash (l ++ c ∷ []) ≡ false
    any-snoc [] c hl hc = ground arith
    any-snoc (d ∷ l) c hl hc = ground (arith, any-snoc l c)

pub split-All : (s : Str) → All (λ m. has_slash m ≡ false) (split_topic s)
unfolding split_topic
split-All s = split_from-All [] s refl

abbrev pub first : List Str → Str
first [] = []
first (l ∷ _) = l

first-split_from : (level s : Str) → first (split_from level s) ≡ level ++ first_level s
unfolding split_from first_level
first-split_from level [] = sym (append-nil level)
first-split_from level (b ∷ s) = ground (
  arith,
  append-nil level,
  first-split_from (level ++ b ∷ []) s,
  append_assoc level (b ∷ []) (first_level s),
)

-- The first level is what stands before the first slash.
pub first-split : (s : Str) → first (split_topic s) ≡ first_level s
unfolding split_topic
first-split s = first-split_from [] s

pub is_system-first_level : (s : Str) → is_system (first_level s) ≡ is_system s
unfolding first_level
is_system-first_level [] = refl
is_system-first_level (b ∷ s) = ground arith
