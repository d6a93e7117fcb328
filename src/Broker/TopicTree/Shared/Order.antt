-- ===== src/Broker/TopicTree/Shared/Order.antt =====
-- The order in which the members of a shared group take their turns, in broker/topic_tree.go.
use shark_mqtt.Prelude.{
  ℕ, ◌<◌, ltb, ◌≡◌, ◌≢◌, ◌∙◌, refl, Bool, true, false, Option, none, some, List, [], ◌∷◌, Str, All,
  ◌==◌, nat_eq, str_eq, str_beq_iff, if◌then◌else◌, arith, Bool-cases, inl, inr,
}
use shark_mqtt.Broker.TopicTree.Found.{Subscriber}
use shark_mqtt.Broker.TopicTree.Results.{result_of, Once}
use shark_mqtt.Broker.TopicTree.Shared.{str_ltb, insert_member, sort_members, keep_online}

pub str_ltb_trans : (s t u : Str) → str_ltb s t ≡ true → str_ltb t u ≡ true → str_ltb s u ≡ true
unfolding str_ltb
str_ltb_trans s t [] h k = absurd (ground arith)
str_ltb_trans s [] (c ∷ u) h k = absurd (ground arith)
str_ltb_trans [] (b ∷ t) (c ∷ u) h k = refl
str_ltb_trans (a ∷ s) (b ∷ t) (c ∷ u) h k = ground (arith, str_ltb_trans s t u)

pub str_ltb_total : (s t : Str) → str_ltb s t ≡ false → s ≢ t → str_ltb t s ≡ true
unfolding str_ltb
str_ltb_total [] [] h n = absurd (n refl)
str_ltb_total (a ∷ s) [] h n = refl
str_ltb_total [] (b ∷ t) h n = absurd (ground arith)
str_ltb_total (a ∷ s) (b ∷ t) h n = ground (arith, str_ltb_total s t)

pub str_ltb_irrefl : (s : Str) → str_ltb s s ≡ false
unfolding str_ltb
str_ltb_irrefl [] = refl
str_ltb_irrefl (a ∷ s) = ground (arith, str_ltb_irrefl s)

-- The order of strings by their bytes, and that `str_ltb` goes by it.
pub data Before : Str → Str → Type 0 where
  shorter : {b : ℕ} {t : Str} → Before [] (b ∷ t)
  smaller : {a b : ℕ} {s t : Str} → a < b → Before (a ∷ s) (b ∷ t)
  further : {a b : ℕ} {s t : Str} → a ≡ b → Before s t → Before (a ∷ s) (b ∷ t)

pub str_ltb→Before : (s t : Str) → str_ltb s t ≡ true → Before s t
unfolding str_ltb
str_ltb→Before s [] e = absurd (ground arith)
str_ltb→Before [] (b ∷ t) e = shorter
str_ltb→Before (a ∷ s) (b ∷ t) e = elim (Bool-cases (ltb a b)) [
  | inl l ↦ smaller (ground arith)
  | inr l ↦ further (ground arith) (str_ltb→Before s t (ground arith))
]

-- Strictly ascending client ids.
abbrev pub IsSorted : List Subscriber → Type 0
IsSorted [] = Unit
IsSorted (m ∷ ms) = All (λ n. str_ltb m.client_id n.client_id ≡ true) ms × IsSorted ms

-- The members that a group's collection holds, in order.
insert_member-All :
    (P : Subscriber → Type 0) (m : Subscriber) (ms : List Subscriber)
    → P m
    → All P ms
    → All P (insert_member m ms)
unfolding insert_member
insert_member-All P m [] p h = (p, tt)
insert_member-All P m (n ∷ ms) p h = elim (Bool-cases (str_ltb m.client_id n.client_id)) [
  | inl e ↦ rw e (p, h)
  | inr e ↦ rw e (h.0, insert_member-All P m ms p h.1)
]

pub below-All :
    (c d : Str) (ms : List Subscriber)
    → str_ltb c d ≡ true
    → All (λ n. str_ltb d n.client_id ≡ true) ms
    → All (λ n. str_ltb c n.client_id ≡ true) ms
below-All c d [] e h = tt
below-All c d (n ∷ ms) e h = (str_ltb_trans c d n.client_id e h.0, below-All c d ms e h.1)

insert_member-IsSorted :
    (m : Subscriber) (ms : List Subscriber)
    → result_of m.client_id ms ≡ none
    → IsSorted ms
    → IsSorted (insert_member m ms)
unfolding insert_member result_of
insert_member-IsSorted m [] a h = (tt, tt)
insert_member-IsSorted m (n ∷ ms) a h = elim (Bool-cases (n.client_id == m.client_id)) [
  | inl b ↦ absurd (ground (arith, b, a))
  | inr b ↦ elim (Bool-cases (str_ltb m.client_id n.client_id)) [
    | inl e ↦ rw e ((e, below-All m.client_id n.client_id ms e h.0), h)
    | inr e ↦ rw e (
      insert_member-All (λ k. str_ltb n.client_id k.client_id ≡ true) m ms (later b e) h.0,
      insert_member-IsSorted m ms (rw b at a) h.1,
    )
  ]
]
  where
    later :
        (n.client_id == m.client_id) ≡ false
        → str_ltb m.client_id n.client_id ≡ false
        → str_ltb n.client_id m.client_id ≡ true
    later b e =
        str_ltb_total m.client_id n.client_id e
          (λ same. ground (arith, same, str_beq_iff n.client_id m.client_id))

result_of-insert_member :
    (c : Str) (m : Subscriber) (ms : List Subscriber)
    → result_of m.client_id ms ≡ none
    → result_of c (insert_member m ms) ≡ result_of c (m ∷ ms)
unfolding insert_member result_of
result_of-insert_member c m [] a = refl
result_of-insert_member c m (n ∷ ms) a = ground (
  arith,
  result_of-insert_member c m ms,
  str_beq_iff n.client_id m.client_id,
  str_beq_iff n.client_id c,
  str_beq_iff m.client_id c,
)

result_of_cons :
    (c : Str) (m : Subscriber) (ms ns : List Subscriber)
    → result_of c ms ≡ result_of c ns
    → result_of c (m ∷ ms) ≡ result_of c (m ∷ ns)
unfolding result_of
result_of_cons c m ms ns e = rw e refl

pub result_of-sort_members :
    (c : Str) (ms : List Subscriber) → Once ms → result_of c (sort_members ms) ≡ result_of c ms
unfolding sort_members
result_of-sort_members c [] h = refl
result_of-sort_members c (m ∷ ms) h =
    result_of-insert_member c m (sort_members ms) (result_of-sort_members m.client_id ms h.1 ∙ h.0)
    ∙ result_of_cons c m (sort_members ms) ms (result_of-sort_members c ms h.1)

pub sort_members-IsSorted : (ms : List Subscriber) → Once ms → IsSorted (sort_members ms)
unfolding sort_members
sort_members-IsSorted [] h = tt
sort_members-IsSorted (m ∷ ms) h =
    insert_member-IsSorted m (sort_members ms) (result_of-sort_members m.client_id ms h.1 ∙ h.0)
      (sort_members-IsSorted ms h.1)

abbrev pub is_online : Option (Str → Bool) → Str → Bool
is_online none c = true
is_online (some online) c = online c

keep_online-All :
    (P : Subscriber → Type 0) (o : Option (Str → Bool)) (ms : List Subscriber)
    → All P ms
    → All P (keep_online o ms)
unfolding keep_online
keep_online-All P none ms h = h
keep_online-All P (some online) [] h = tt
keep_online-All P (some online) (m ∷ ms) h = elim (Bool-cases (online m.client_id)) [
  | inl e ↦ rw e (h.0, keep_online-All P (some online) ms h.1)
  | inr e ↦ rw e (keep_online-All P (some online) ms h.1)
]

pub keep_online-IsSorted :
    (o : Option (Str → Bool)) (ms : List Subscriber) → IsSorted ms → IsSorted (keep_online o ms)
unfolding keep_online
keep_online-IsSorted none ms h = h
keep_online-IsSorted (some online) [] h = tt
keep_online-IsSorted (some online) (m ∷ ms) h = elim (Bool-cases (online m.client_id)) [
  | inl e ↦ rw e (
    keep_online-All (λ n. str_ltb m.client_id n.client_id ≡ true) (some online) ms h.0,
    keep_online-IsSorted (some online) ms h.1,
  )
  | inr e ↦ rw e (keep_online-IsSorted (some online) ms h.1)
]

pub result_of-keep_online :
    (c : Str) (o : Option (Str → Bool)) (ms : List Subscriber)
    → result_of c (keep_online o ms) ≡ (if is_online o c then result_of c ms else none)
unfolding keep_online result_of
result_of-keep_online c none ms = refl
result_of-keep_online c (some online) [] = ground arith
result_of-keep_online c (some online) (m ∷ ms) = elim (Bool-cases (m.client_id == c)) [
  | inl b ↦
      ground (arith, b, (str_beq_iff m.client_id c).0 b, result_of-keep_online c (some online) ms)
  | inr b ↦ ground (arith, result_of-keep_online c (some online) ms)
]
