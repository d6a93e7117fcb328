-- ===== src/Broker/Session/Subscriptions/Sorted.antt =====
-- `slices.Sort` and `slices.Compact` as broker/session.go uses them: the identifiers ascend, and
-- are the same ones.
use shark_mqtt.Prelude.{
  ℕ, ◌≤◌, ◌<◌, ◌≡◌, ◌∙◌, refl, sym, Bool, true, false, ◌||◌, List, [], ◌∷◌, All, ltb, leb, length,
  ◌==◌, nat_eq, nat_beq_iff, arith, Bool-cases, inl, inr,
}
use shark_mqtt.Broker.Session.Subscriptions.{insert_sorted, sort, compact, compact_identifiers}

unfoldable pub has : ℕ → List ℕ → Bool
has i [] = false
has i (j ∷ js) = j == i || has i js

abbrev Ascends : List ℕ → Type 0
Ascends [] = Unit
Ascends (i ∷ is) = All (λ j. i ≤ j) is × Ascends is

abbrev pub IsStrict : List ℕ → Type 0
IsStrict [] = Unit
IsStrict (i ∷ is) = All (λ j. i < j) is × IsStrict is

has-insert_sorted : (i j : ℕ) (js : List ℕ) → has i (insert_sorted j js) ≡ (j == i || has i js)
unfolding has insert_sorted
has-insert_sorted i j [] = refl
has-insert_sorted i j (k ∷ js) = ground (arith, has-insert_sorted i j js)

has-sort : (i : ℕ) (js : List ℕ) → has i (sort js) ≡ has i js
unfolding has sort
has-sort i [] = refl
has-sort i (j ∷ js) = has-insert_sorted i j (sort js) ∙ rw (has-sort i js) refl

has-compact : (i : ℕ) (js : List ℕ) → has i (compact js) ≡ has i js
unfolding has compact
has-compact i [] = refl
has-compact i (j ∷ []) = refl
has-compact i (j ∷ k ∷ js) = ground (arith, has-compact i (k ∷ js))

insert_sorted-All :
    (P : ℕ → Type 0) (i : ℕ) (is : List ℕ) → P i → All P is → All P (insert_sorted i is)
unfolding insert_sorted
insert_sorted-All P i [] p h = (p, tt)
insert_sorted-All P i (j ∷ js) p h = elim (Bool-cases (leb i j)) [
  | inl e ↦ rw e (p, h)
  | inr e ↦ rw e (h.0, insert_sorted-All P i js p h.1)
]

All-le : (i j : ℕ) (js : List ℕ) → i ≤ j → All (λ k. j ≤ k) js → All (λ k. i ≤ k) js
All-le i j [] e h = tt
All-le i j (k ∷ js) e h = (omega (arith, e, h.0), All-le i j js e h.1)

All-lt : (i j : ℕ) (js : List ℕ) → i < j → All (λ k. j < k) js → All (λ k. i < k) js
All-lt i j [] e h = tt
All-lt i j (k ∷ js) e h = (omega (arith, e, h.0), All-lt i j js e h.1)

insert_sorted-Ascends : (i : ℕ) (is : List ℕ) → Ascends is → Ascends (insert_sorted i is)
unfolding insert_sorted
insert_sorted-Ascends i [] h = (tt, tt)
insert_sorted-Ascends i (j ∷ js) h = elim (Bool-cases (leb i j)) [
  | inl e ↦ let l : i ≤ j = ground (arith, e) in rw e ((l, All-le i j js l h.0), h)
  | inr e ↦
      let l : j ≤ i = ground (arith, e) in
      rw e (insert_sorted-All (λ k. j ≤ k) i js l h.0, insert_sorted-Ascends i js h.1)
]

sort-Ascends : (is : List ℕ) → Ascends (sort is)
unfolding sort
sort-Ascends [] = tt
sort-Ascends (i ∷ is) = insert_sorted-Ascends i (sort is) (sort-Ascends is)

compact-All : (P : ℕ → Type 0) (is : List ℕ) → All P is → All P (compact is)
unfolding compact
compact-All P [] h = tt
compact-All P (i ∷ []) h = h
compact-All P (i ∷ j ∷ js) h = elim (Bool-cases (i == j)) [
  | inl e ↦ rw e (compact-All P (j ∷ js) h.1)
  | inr e ↦ rw e (h.0, compact-All P (j ∷ js) h.1)
]

strictly : (i j : ℕ) (js : List ℕ) → i < j → Ascends (j ∷ js) → All (λ k. i < k) (j ∷ js)
strictly i j [] e h = (e, tt)
strictly i j (k ∷ js) e h = (e, strictly i k js (omega (arith, e, h.0.0)) h.1)

compact-IsStrict : (is : List ℕ) → Ascends is → IsStrict (compact is)
unfolding compact
compact-IsStrict [] h = tt
compact-IsStrict (i ∷ []) h = (tt, tt)
compact-IsStrict (i ∷ j ∷ js) h = elim (Bool-cases (i == j)) [
  | inl e ↦ rw e (compact-IsStrict (j ∷ js) h.1)
  | inr e ↦
      let less : i < j = ground (arith, e, h.0.0, nat_beq_iff i j) in
      rw e (
        compact-All (λ k. i < k) (j ∷ js) (strictly i j js less h.1),
        compact-IsStrict (j ∷ js) h.1,
      )
]

pub compact_identifiers-IsStrict : (ids : List ℕ) → IsStrict (compact_identifiers ids)
unfolding compact_identifiers
compact_identifiers-IsStrict [] = tt
compact_identifiers-IsStrict (i ∷ []) = (tt, tt)
compact_identifiers-IsStrict (i ∷ j ∷ js) =
    let many : ltb 1 (length (i ∷ j ∷ js)) ≡ true = ground arith in
    rw many (compact-IsStrict (sort (i ∷ j ∷ js)) (sort-Ascends (i ∷ j ∷ js)))

pub has-compact_identifiers : (i : ℕ) (ids : List ℕ) → has i (compact_identifiers ids) ≡ has i ids
unfolding compact_identifiers
has-compact_identifiers i ids = elim (Bool-cases (ltb 1 (length ids))) [
  | inl e ↦ rw e (has-compact i (sort ids) ∙ has-sort i ids)
  | inr e ↦ rw e refl
]

below-has : (i : ℕ) (js : List ℕ) → All (λ k. i < k) js → has i js ≡ false
unfolding has
below-has i [] h = refl
below-has i (j ∷ js) h = ground (arith, h.0, nat_beq_iff j i, below-has i js h.1)

-- The head of one list is not below the head of another with the same elements.
heads-le : (i j : ℕ) (is js : List ℕ) → IsStrict (j ∷ js) → has i (i ∷ is) ≡ has i (j ∷ js) → j ≤ i
unfolding has
heads-le i j is js h same = elim (Bool-cases (ltb i j)) [
  | inl e ↦
      let less : i < j = ground (arith, e) in
      ground
        (arith, same, nat_beq_iff i i, nat_beq_iff j i, below-has i js (All-lt i j js less h.0))
  | inr e ↦ ground (arith, e)
]

-- A strictly ascending list is determined by its elements.
pub IsStrict-unique :
    (is js : List ℕ) → IsStrict is → IsStrict js → ((i : ℕ) → has i is ≡ has i js) → is ≡ js
unfolding has
IsStrict-unique [] [] h k same = refl
IsStrict-unique [] (j ∷ js) h k same = absurd (ground (arith, same j, nat_beq_iff j j))
IsStrict-unique (i ∷ is) [] h k same = absurd (ground (arith, same i, nat_beq_iff i i))
IsStrict-unique (i ∷ is) (j ∷ js) h k same =
    let first : i ≡ j =
      omega (arith, heads-le i j is js k (same i), heads-le j i js is h (sym (same j))) in
    let rest : is ≡ js = IsStrict-unique is js h.1 k.1 (λ n. tails n first) in cc
  where
    tails : (n : ℕ) → i ≡ j → has n is ≡ has n js
    tails n e = elim (Bool-cases (i == n)) [
      | inl b ↦ ground (arith, e, nat_beq_iff i n, b, below-has i is h.0, below-has j js k.0)
      | inr b ↦ ground (arith, e, b, same n)
    ]
