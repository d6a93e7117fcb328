-- ===== src/Trie.antt =====
-- A trie over topic levels, as broker/topic_tree.go (`TopicNode`) and store/memory/memory.go
-- (`retainedTrie`) build it: a node has a value and a map from levels to child nodes.
pub mod Laws
use shark_mqtt.Prelude.{
  Bool, true, false, Option, none, some, List, [], ◌∷◌, Str, ◌==◌, str_eq, if◌then◌else◌,
}

-- The children of a node: level, value, children of the child, and the further children.
pub data Forest {ℓ} (A : Type ℓ) : Type ℓ where
  nil : Forest A
  cons : Str → A → Forest A → Forest A → Forest A

pub record Node {ℓ} (A : Type ℓ) : Type ℓ where
  pub value : A
  pub children : Forest A

module _ {ℓ} {A : Type ℓ} where
  -- `node.children[part]`
  unfoldable pub find : Str → Forest A → Option (Node A)
  find k nil = none
  find k (cons j a kids rest) =
      if j == k then some (record { value = a; children = kids }) else find k rest

  -- `node.children[part] = child`
  unfoldable pub put : Str → Node A → Forest A → Forest A
  put k n nil = cons k n.value n.children nil
  put k n (cons j a kids rest) =
      if j == k then cons k n.value n.children rest else cons j a kids (put k n rest)

  -- `delete(node.children, part)`
  unfoldable pub remove : Str → Forest A → Forest A
  remove k nil = nil
  remove k (cons j a kids rest) =
      let others = remove k rest in if j == k then others else cons j a kids others

  abbrev pub no_children : Forest A → Bool
  no_children nil = true
  no_children (cons _ _ _ _) = false

  abbrev pub or_new : A → Option (Node A) → Node A
  or_new a none = record { value = a; children = nil }
  or_new a (some n) = n
