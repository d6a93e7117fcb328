-- ===== src/Prelude/Map.antt =====
-- Go's maps as association lists in order of insertion. No theorem about the program depends on
-- that order: Go's iteration order is unspecified.
use Prim.Native.Nat.{◌+◌, ◌≤◌}
use mathlib.Core.Path.{◌≡◌, refl}
use mathlib.Core.Logic.{inl, inr}
use mathlib.Core.Option.{Option, none, some}
use mathlib.Core.List.{List, [], ◌∷◌}
use native.Mathlib.Omega.{arith}
use shark_mqtt.Prelude.Tests.{Eq, ◌==◌, if◌then◌else◌, is_some, Bool-cases}
use shark_mqtt.Prelude.Lists.{length}

abbrev pub Map {ℓ κ} : Type ℓ → Type κ → Type (ℓ ⊔ κ)
Map K V = List (K × V)

module _ {ℓ κ} {K : Type ℓ} {V : Type κ} ⦃e : Eq K⦄ where
  unfoldable pub lookup : K → Map K V → Option V
  lookup key [] = none
  lookup key ((first, value) ∷ others) =
      let further = lookup key others in if first == key then some value else further

  -- `m[k] = v`
  unfoldable pub insert : K → V → Map K V → Map K V
  insert key value [] = (key, value) ∷ []
  insert key value ((first, old) ∷ others) =
      let further = insert key value others in
      if first == key then (key, value) ∷ others else (first, old) ∷ further

  -- `delete(m, k)`
  unfoldable pub delete : K → Map K V → Map K V
  delete k [] = []
  delete k ((j, w) ∷ m) = let rest = delete k m in if j == k then rest else (j, w) ∷ rest

  pub lookup-insert :
      (new key : K) (value : V) (entries : Map K V)
      → lookup key (insert new value entries)
        ≡ (if new == key then some value else lookup key entries)
  unfolding lookup insert
  lookup-insert new key value [] = refl
  lookup-insert new key value ((first, old) ∷ entries) = ground (
    arith,
    lookup-insert new key value entries,
    e.same_iff new key,
    e.same_iff first new,
    e.same_iff first key,
  )

  pub lookup-delete :
      (k j : K) (m : Map K V) → lookup j (delete k m) ≡ (if k == j then none else lookup j m)
  unfolding lookup delete
  lookup-delete k j [] = ground arith
  lookup-delete k j ((i, w) ∷ m) =
      ground (arith, e.same_iff k j, e.same_iff i k, e.same_iff i j, lookup-delete k j m)

  pub length-insert :
      (k : K) (v : V) (m : Map K V)
      → length (insert k v m) ≡ length m + (if is_some (lookup k m) then 0 else 1)
  unfolding lookup insert
  length-insert k v [] = omega arith
  length-insert k v ((i, w) ∷ m) = ground (arith, length-insert k v m)

  pub length-delete-le : (k : K) (m : Map K V) → length (delete k m) ≤ length m
  unfolding delete
  length-delete-le k [] = omega arith
  length-delete-le k ((i, w) ∷ m) = ground (arith, length-delete-le k m)

  -- Each key stands once.
  abbrev pub NodupKeys : Map K V → Type κ
  NodupKeys [] = Unit
  NodupKeys ((k, v) ∷ m) = (lookup k m ≡ none) × NodupKeys m

  pub insert-NodupKeys : (k : K) (v : V) (m : Map K V) → NodupKeys m → NodupKeys (insert k v m)
  unfolding insert
  insert-NodupKeys k v [] h = (unfold lookup in refl, tt)
  insert-NodupKeys k v ((j, w) ∷ m) h = elim (Bool-cases (j == k)) [
    | inl q ↦ rw q (rw ((e.same_iff j k).0 q) at h.0, h.1)
    | inr q ↦ rw q (
      rw lookup-insert (ground (arith, h.0, e.same_iff j k, e.same_iff k j)),
      insert-NodupKeys k v m h.1,
    )
  ]

  absent-delete : (k j : K) (m : Map K V) → lookup j m ≡ none → lookup j (delete k m) ≡ none
  absent-delete k j m h = rw lookup-delete (ground (arith, h))

  pub delete-NodupKeys : (k : K) (m : Map K V) → NodupKeys m → NodupKeys (delete k m)
  unfolding delete
  delete-NodupKeys k [] h = h
  delete-NodupKeys k ((j, w) ∷ m) h = elim (Bool-cases (j == k)) [
    | inl q ↦ rw q (delete-NodupKeys k m h.1)
    | inr q ↦ rw q (absent-delete k j m h.0, delete-NodupKeys k m h.1)
  ]

  delete_absent : (k : K) (m : Map K V) → lookup k m ≡ none → delete k m ≡ m
  unfolding lookup delete
  delete_absent k [] h = refl
  delete_absent k ((j, w) ∷ m) h = ground (arith, delete_absent k m)

  pub length-delete :
      (k : K) (m : Map K V)
      → NodupKeys m
      → length (delete k m) + (if is_some (lookup k m) then 1 else 0) ≡ length m
  unfolding lookup delete
  length-delete k [] h = omega arith
  length-delete k ((j, w) ∷ m) h = elim (Bool-cases (j == k)) [
    | inl q ↦ rw q (rw (delete_absent k m (rw ((e.same_iff j k).0 q) at h.0)) (omega arith))
    | inr q ↦ rw q (omega (arith, length-delete k m h.1))
  ]
