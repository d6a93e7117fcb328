-- ===== src/Broker/Auth/Covers.antt =====
-- `aclCovers` grants no topic that the pattern does not match, and on a topic without wildcards it
-- is exactly the match.
use shark_mqtt.Prelude.{
  ℕ, ◌≡◌, refl, ap, Bool, true, false, ◌&&◌, Option, none, some, List, [], ◌∷◌, ◌++◌, Str, ◌==◌,
  str_eq, str_beq, str_beq_iff, nat_eq, if◌then◌else◌, length, any, arith, Bool-cases, inl, inr,
  All, ◌≢◌,
}
use shark_mqtt.Prelude.Map.{lookup}
use shark_mqtt.Protocol.Topic.Split.{split_from-ne-nil}
use shark_mqtt.Protocol.Topic.{
  slash, hash, plus, is_wildcard, split_from, split_topic, match_levels, match_sys_protected,
  validate_publish_topic,
}
use shark_mqtt.Broker.TopicTree.Matching.{is_protected}
use shark_mqtt.Broker.TopicTree.Coverage.{match_sys_protected-levels}
use shark_mqtt.Broker.Auth.{
  covers_levels, starts_system, starts_wild, acl_covers, StaticAuth, Acl, can_publish,
}

covers_levels_sound :
    (ap rp ts : List Str)
    → covers_levels ap rp ≡ true
    → match_levels rp ts ≡ true
    → match_levels ap ts ≡ true
unfolding covers_levels match_levels
covers_levels_sound [] [] ts h m = m
covers_levels_sound [] (r ∷ rp) ts h m = absurd (ground arith)
covers_levels_sound (a ∷ ap) [] [] h m = h
covers_levels_sound (a ∷ ap) [] (t ∷ ts) h m = absurd (ground arith)
covers_levels_sound (a ∷ ap) (r ∷ rp) [] h m = ground (arith, str_beq_iff r hash)
covers_levels_sound (a ∷ ap) (r ∷ rp) (t ∷ ts) h m = ground (
  arith,
  covers_levels_sound ap rp ts,
  str_beq_iff a hash,
  str_beq_iff a plus,
  str_beq_iff a r,
  str_beq_iff r t,
)

-- The `$` rule passes from the requested filter to the pattern.
covers-protected :
    (ap rp ts : List Str)
    → is_protected rp ts ≡ false
    → match_levels rp ts ≡ true
    → (starts_system rp && starts_wild ap) ≡ false
    → is_protected ap ts ≡ false
unfolding match_levels
covers-protected ap rp [] p m s = refl
covers-protected ap [] (t ∷ ts) p m s = absurd (ground arith)
covers-protected [] (r ∷ rp) (t ∷ ts) p m s = ground arith
covers-protected (a ∷ ap) (r ∷ rp) (t ∷ ts) p m s = ground (arith, str_beq_iff r t)

-- Whatever the requested filter matches under the `$` protection, a pattern that covers it matches.
pub acl_covers_sound :
    (a r t : Str)
    → acl_covers a r ≡ true
    → match_sys_protected r t ≡ true
    → match_sys_protected a t ≡ true
unfolding acl_covers
acl_covers_sound a r t h m = ground (
  arith,
  match_sys_protected-levels a t,
  match_sys_protected-levels r t,
  covers_levels_sound (split_topic a) (split_topic r) (split_topic t),
  covers-protected (split_topic a) (split_topic r) (split_topic t),
)

-- No level has a wildcard byte.
abbrev IsLiteral : List Str → Type 0
IsLiteral = All (λ l. any is_wildcard l ≡ false)

literal_level :
    (l : Str) → any is_wildcard l ≡ false → (str_beq l hash ≡ false) × (str_beq l plus ≡ false)
literal_level [] h = (refl, refl)
literal_level (b ∷ l) h = ground arith

covers_levels_literal : (ap rp : List Str) → IsLiteral rp → covers_levels ap rp ≡ match_levels ap rp
unfolding covers_levels match_levels
covers_levels_literal [] rp h = refl
covers_levels_literal (a ∷ ap) [] h = refl
covers_levels_literal (a ∷ ap) (r ∷ rp) h =
    ground (arith, literal_level r h.0, covers_levels_literal ap rp h.1)

any-snoc :
    (l : Str) (c : ℕ)
    → any is_wildcard l ≡ false
    → is_wildcard c ≡ false
    → any is_wildcard (l ++ c ∷ []) ≡ false
any-snoc [] c hl hc = ground arith
any-snoc (d ∷ l) c hl hc = ground (arith, any-snoc l c)

split_from-IsLiteral :
    (level s : Str)
    → any is_wildcard level ≡ false
    → any is_wildcard s ≡ false
    → IsLiteral (split_from level s)
unfolding split_from
split_from-IsLiteral level [] h hs = (h, tt)
split_from-IsLiteral level (b ∷ s) h hs = elim (Bool-cases (b == slash)) [
  | inl e ↦ rw e (h, split_from-IsLiteral [] s refl (ground arith))
  | inr e ↦
      rw e (
        split_from-IsLiteral (level ++ b ∷ []) s (any-snoc level b h (ground arith)) (ground arith))
]

split-IsLiteral : (t : Str) → validate_publish_topic t ≡ true → IsLiteral (split_topic t)
unfolding validate_publish_topic split_topic
split-IsLiteral t h = split_from-IsLiteral [] t refl (ground arith)

literal_covers :
    (ap rp : List Str)
    → (if length ap == 0
        then false
        else if starts_system rp && starts_wild ap
        then false
        else match_levels ap rp)
      ≡ (if length ap == 0 then false else if is_protected ap rp then false else match_levels ap rp)
literal_covers [] rp = refl
literal_covers (a ∷ ap) [] = refl
literal_covers (a ∷ ap) (r ∷ rp) = ground arith

split-length : (s : Str) → (length (split_topic s) == 0) ≡ false
unfolding split_topic
split-length s = nonempty (split_from [] s) (split_from-ne-nil [] s)
  where
    nonempty : (ls : List Str) → ls ≢ [] → (length ls == 0) ≡ false
    nonempty [] h = absurd (h refl)
    nonempty (l ∷ ls) h = ground arith

-- On a topic that may be published to, the pattern covers the topic exactly if it matches it.
pub acl_covers_publish :
    (a t : Str) → validate_publish_topic t ≡ true → acl_covers a t ≡ match_sys_protected a t
unfolding acl_covers
acl_covers_publish a t h = ground (
  arith,
  match_sys_protected-levels a t,
  covers_levels_literal (split_topic a) (split_topic t) (split-IsLiteral t h),
  literal_covers (split_topic a) (split_topic t),
  split-length a,
)

any-cong : {A : Type 0} (f g : A → Bool) (xs : List A) → ((x : A) → f x ≡ g x) → any f xs ≡ any g xs
any-cong f g [] h = refl
any-cong f g (x ∷ xs) h = rw (h x, any-cong f g xs h)

-- A user may publish to a topic without wildcards and not empty exactly if the user has an access
-- list and one of its patterns matches the topic under the `$` protection.
pub can_publish_lem :
    (s : StaticAuth) (u t : Str)
    → validate_publish_topic t ≡ true
    → can_publish s u t ≡ elim (lookup u s.acls) [
      | none ↦ false
      | some acl ↦ any (λ p. match_sys_protected p t) acl.publish_topics
    ]
unfolding can_publish
can_publish_lem s u t h = go (lookup u s.acls)
  where
    go :
        (o : Option Acl)
        → ◌≡◌ {A = Bool}
            (elim o [ none ↦ false | some acl ↦ any (λ p. acl_covers p t) acl.publish_topics ])
            (elim o [
              | none ↦ false
              | some acl ↦ any (λ p. match_sys_protected p t) acl.publish_topics
            ])
    go none = refl
    go (some acl) = any-cong _ _ acl.publish_topics (λ p. acl_covers_publish p t h)
