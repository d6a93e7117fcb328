-- ===== src/Store/Memory/Index.antt =====
-- The trie of store/memory/memory.go as a map from topics to messages.
use shark_mqtt.Prelude.{
  ◌≡◌, refl, Bool, true, false, Option, none, some, List, [], ◌∷◌, Str, str_eq, str_beq_iff,
  levels_beq, if◌then◌else◌, arith, Option-cases, inl, inr, WhenSome,
}
use shark_mqtt.Protocol.Topic.{split_topic}
use shark_mqtt.Trie.{find, or_new}
use shark_mqtt.Trie.Laws.{
  find-put, find-remove, find-no_children, IsNode, find-IsNode, put-IsForest, remove-IsForest,
}
use shark_mqtt.Store.Memory.{
  RetainedMessage, RetainedTrie, add_to_index, is_unset, after_remove, remove_node,
  remove_from_index,
}

abbrev pub at_child :
    (RetainedTrie → Option RetainedMessage) → Option RetainedTrie → Option RetainedMessage
at_child f none = none
at_child f (some n) = f n

-- The message at a path below a node.
unfoldable pub stored_at : List Str → RetainedTrie → Option RetainedMessage
stored_at [] n = n.value
stored_at (p ∷ ps) n = at_child (stored_at ps) (find p n.children)

stored_at-or_new :
    (ps : List Str) (o : Option RetainedTrie)
    → stored_at ps (or_new none o) ≡ at_child (stored_at ps) o
unfolding stored_at find
stored_at-or_new [] none = refl
stored_at-or_new (p ∷ ps) none = refl
stored_at-or_new ps (some n) = refl

pub stored_at-add :
    (fs gs : List Str) (msg : RetainedMessage) (n : RetainedTrie)
    → stored_at gs (add_to_index fs msg n) ≡ (if levels_beq fs gs then some msg else stored_at gs n)
unfolding stored_at add_to_index
stored_at-add [] [] msg n = refl
stored_at-add [] (g ∷ gs) msg n = refl
stored_at-add (f ∷ fs) [] msg n = refl
stored_at-add (f ∷ fs) (g ∷ gs) msg n = ground (
  arith,
  find-put f g (add_to_index fs msg (or_new none (find f n.children))) n.children,
  stored_at-add fs gs msg (or_new none (find f n.children)),
  stored_at-or_new gs (find f n.children),
  str_beq_iff f g,
)

-- Below a node that is reported empty nothing is stored.
stored_at_unset : (gs : List Str) (n : RetainedTrie) → is_unset n ≡ true → stored_at gs n ≡ none
unfolding stored_at
stored_at_unset [] n h = ground arith
stored_at_unset (g ∷ gs) n h = ground (arith, find-no_children g n.children)

emptied_lem :
    (fs : List Str) (n : RetainedTrie)
    → (remove_node fs n).1 ≡ true
    → is_unset (remove_node fs n).0 ≡ true
unfolding remove_node
emptied_lem [] n h = h
emptied_lem (f ∷ fs) n h = ground arith

stored_at-remove_node :
    (fs gs : List Str) (n : RetainedTrie)
    → stored_at gs (remove_node fs n).0 ≡ (if levels_beq fs gs then none else stored_at gs n)
unfolding stored_at remove_node
stored_at-remove_node [] [] n = refl
stored_at-remove_node [] (g ∷ gs) n = refl
stored_at-remove_node (f ∷ fs) [] n = ground arith
stored_at-remove_node (f ∷ fs) (g ∷ gs) n = elim (Option-cases (find f n.children)) [
  | inl e ↦ ground (arith, str_beq_iff f g)
  | inr (child, e) ↦ ground (
    arith,
    find-put f g (remove_node fs child).0 n.children,
    find-remove f g n.children,
    stored_at-remove_node fs gs child,
    emptied_lem fs child,
    stored_at_unset gs (remove_node fs child).0,
    str_beq_iff f g,
  )
]

pub stored_at-remove :
    (topic : Str) (gs : List Str) (n : RetainedTrie)
    → stored_at gs (remove_from_index topic n)
      ≡ (if levels_beq (split_topic topic) gs then none else stored_at gs n)
unfolding remove_from_index
stored_at-remove topic gs n = stored_at-remove_node (split_topic topic) gs n

-- No level stands twice among the children of a node.
abbrev pub IsIndex : RetainedTrie → Type 0
IsIndex = IsNode (λ (_ : Option RetainedMessage). Unit {0})

or_new-IsIndex : (o : Option RetainedTrie) → WhenSome IsIndex o → IsIndex (or_new none o)
or_new-IsIndex none h = (tt, tt)
or_new-IsIndex (some n) h = h

pub add_to_index-IsIndex :
    (fs : List Str) (msg : RetainedMessage) (n : RetainedTrie)
    → IsIndex n
    → IsIndex (add_to_index fs msg n)
unfolding add_to_index
add_to_index-IsIndex [] msg n h = (tt, h.1)
add_to_index-IsIndex (f ∷ fs) msg n h =
    let ok = or_new-IsIndex (find f n.children) (find-IsNode _ f n.children h.1) in
    (
      tt,
      put-IsForest _ f (add_to_index fs msg (or_new none (find f n.children))) n.children
          (add_to_index-IsIndex fs msg (or_new none (find f n.children)) ok) h.1,
    )

after_remove-IsIndex :
    (f : Str) (n child : RetainedTrie) (emptied : Bool)
    → IsIndex n
    → IsIndex child
    → IsIndex (after_remove f n (child, emptied)).0
after_remove-IsIndex f n child true h hc = (tt, remove-IsForest _ f n.children h.1)
after_remove-IsIndex f n child false h hc = (tt, put-IsForest _ f child n.children hc h.1)

remove_node-IsIndex : (fs : List Str) (n : RetainedTrie) → IsIndex n → IsIndex (remove_node fs n).0
unfolding remove_node
remove_node-IsIndex [] n h = (tt, h.1)
remove_node-IsIndex (f ∷ fs) n h =
    go (find f n.children) (find-IsNode _ f n.children h.1)
      (λ child ok. remove_node-IsIndex fs child ok)
  where
    go :
        (o : Option RetainedTrie)
        → WhenSome IsIndex o
        → ((child : RetainedTrie) → IsIndex child → IsIndex (remove_node fs child).0)
        → IsIndex (
            let r : RetainedTrie × Bool = elim o [
              | none ↦ (n, false)
              | some child ↦ after_remove f n (remove_node fs child)
            ] in
            r.0)
    go none ok ih = h
    go (some child) ok ih =
        let (child', emptied) = remove_node fs child in
        after_remove-IsIndex f n child' emptied h (ih child ok)

pub remove-IsIndex :
    (topic : Str) (n : RetainedTrie) → IsIndex n → IsIndex (remove_from_index topic n)
unfolding remove_from_index
remove-IsIndex topic n h = remove_node-IsIndex (split_topic topic) n h
