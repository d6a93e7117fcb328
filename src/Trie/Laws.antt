-- ===== src/Trie/Laws.antt =====
-- Reading a child after a write, and the invariant that a node has one child at a level.
use shark_mqtt.Prelude.{
  ◌≡◌, refl, true, none, some, Str, ◌==◌, str_eq, str_beq_iff, if◌then◌else◌, arith, Bool-cases,
  inl, inr, WhenSome,
}
use shark_mqtt.Trie.{Forest, nil, cons, Node, find, put, remove, no_children}

module _ {ℓ} {A : Type ℓ} where
  pub find-put :
      (k j : Str) (n : Node A) (c : Forest A)
      → find j (put k n c) ≡ (if k == j then some n else find j c)
  unfolding find put
  find-put k j n nil = refl
  find-put k j n (cons i a kids rest) =
      ground (arith, str_beq_iff k j, str_beq_iff i k, str_beq_iff i j, find-put k j n rest)

  pub find-remove :
      (k j : Str) (c : Forest A) → find j (remove k c) ≡ (if k == j then none else find j c)
  unfolding find remove
  find-remove k j nil = ground arith
  find-remove k j (cons i a kids rest) =
      ground (arith, str_beq_iff k j, str_beq_iff i k, str_beq_iff i j, find-remove k j rest)

  absent-remove : (k j : Str) (c : Forest A) → find j c ≡ none → find j (remove k c) ≡ none
  absent-remove k j c h = rw find-remove (ground (arith, h))

  pub find-no_children : (k : Str) (c : Forest A) → no_children c ≡ true → find k c ≡ none
  unfolding find
  find-no_children k nil h = refl
  find-no_children k (cons i a kids rest) h = cc

module _ {ℓ κ} {A : Type ℓ} (P : A → Type κ) where
  -- Every value satisfies `P`, and no level stands twice among the children of a node.
  abbrev pub IsForest : Forest A → Type (ℓ ⊔ κ)
  IsForest nil = Unit
  IsForest (cons k a kids rest) = P a × (find k rest ≡ none) × IsForest kids × IsForest rest

  abbrev pub IsNode : Node A → Type (ℓ ⊔ κ)
  IsNode n = P n.value × IsForest n.children

  pub find-IsNode : (k : Str) (c : Forest A) → IsForest c → WhenSome IsNode (find k c)
  unfolding find
  find-IsNode k nil h = tt
  find-IsNode k (cons j a kids rest) h = elim (Bool-cases (j == k)) [
    | inl e ↦ rw e (h.0, h.2)
    | inr e ↦ rw e (find-IsNode k rest h.3)
  ]

  pub put-IsForest :
      (k : Str) (n : Node A) (c : Forest A) → IsNode n → IsForest c → IsForest (put k n c)
  unfolding put
  put-IsForest k n nil hn h = (hn.0, unfold find in refl, hn.1, tt)
  put-IsForest k n (cons j a kids rest) hn h = elim (Bool-cases (j == k)) [
    | inl e ↦ rw e (hn.0, rw ((str_beq_iff j k).0 e) at h.1, hn.1, h.3)
    | inr e ↦ rw e (
      h.0,
      rw find-put (ground (arith, h.1, str_beq_iff j k, str_beq_iff k j)),
      h.2,
      put-IsForest k n rest hn h.3,
    )
  ]

  pub remove-IsForest : (k : Str) (c : Forest A) → IsForest c → IsForest (remove k c)
  unfolding remove
  remove-IsForest k nil h = h
  remove-IsForest k (cons j a kids rest) h = elim (Bool-cases (j == k)) [
    | inl e ↦ rw e (remove-IsForest k rest h.3)
    | inr e ↦ rw e (h.0, absent-remove k j rest h.1, h.2, remove-IsForest k rest h.3)
  ]
