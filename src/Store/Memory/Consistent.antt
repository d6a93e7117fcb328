-- ===== src/Store/Memory/Consistent.antt =====
-- The trie of the retained store in store/memory/memory.go is an index of its map.
use shark_mqtt.Prelude.{
  ℕ, ◌≡◌, ◌⊎◌, ◌∙◌, refl, sym, ap, true, false, none, some, List, [], ◌∷◌, Str, str_eq, str_beq,
  str_beq_iff, levels_beq, levels_beq_iff, length, if◌then◌else◌, nat_eq, ◌==◌, arith, Bool-cases,
  inl, inr, none-ne-some, some-eq-some,
}
use shark_mqtt.Prelude.Map.{lookup, insert, delete, lookup-insert, lookup-delete}
use shark_mqtt.Protocol.Topic.{split_topic}
use shark_mqtt.Protocol.Topic.Split.{join_levels, join-split}
use shark_mqtt.Trie.{find}
use shark_mqtt.Store.Memory.{
  RetainedMessage, RetainedStore, new_retained_store, empty_trie, save_retained, delete_retained,
  add_to_index, remove_from_index,
}
use shark_mqtt.Store.Memory.Index.{
  stored_at, stored_at-add, stored_at-remove, IsIndex, add_to_index-IsIndex, remove-IsIndex,
}

-- The trie and the map hold the same messages, each at the levels of its topic.
pub record IsStore (r : RetainedStore) : Type 0 where
  pub nodes : IsIndex r.index
  pub indexed : (t : Str) → stored_at (split_topic t) r.index ≡ lookup t r.messages
  pub named :
      (ps : List Str) (m : RetainedMessage)
      → stored_at ps r.index ≡ some m
      → split_topic m.topic ≡ ps

pub new_retained_store-IsStore : IsStore new_retained_store
unfolding new_retained_store stored_at find lookup
new_retained_store-IsStore = record {
  nodes = (tt, tt);
  indexed = λ t. nothing (split_topic t);
  named = λ ps m e. absurd (none-ne-some (sym (nothing ps) ∙ e));
}
  where
    nothing : (ps : List Str) → stored_at ps empty_trie ≡ none
    nothing [] = refl
    nothing (p ∷ ps) = refl

pub split_injective : (s t : Str) → split_topic s ≡ split_topic t → s ≡ t
split_injective s t e = sym (join-split s) ∙ ap join_levels e ∙ join-split t

levels_beq-split : (s t : Str) → levels_beq (split_topic s) (split_topic t) ≡ str_beq s t
levels_beq-split s t = go (Bool-cases (levels_beq (split_topic s) (split_topic t)))
  where
    go :
        (levels_beq (split_topic s) (split_topic t) ≡ true)
          ⊎ (levels_beq (split_topic s) (split_topic t) ≡ false)
        → levels_beq (split_topic s) (split_topic t) ≡ str_beq s t
    go (inl b) =
        b
        ∙ sym (
            (str_beq_iff s t).1
              (split_injective s t ((levels_beq_iff (split_topic s) (split_topic t)).0 b)))
    go (inr b) = elim (Bool-cases (str_beq s t)) [
      | inl e ↦
          let same = ap split_topic ((str_beq_iff s t).0 e) in
          absurd (ground (arith, (levels_beq_iff (split_topic s) (split_topic t)).1 same, b))
      | inr e ↦ b ∙ sym e
    ]

delete-IsStore :
    (topic : Str) (r : RetainedStore)
    → IsStore r
    → IsStore
        (record { messages = delete topic r.messages; index = remove_from_index topic r.index })
delete-IsStore topic r h = record {
  nodes = remove-IsIndex topic r.index h.nodes;
  indexed = λ t. ground (
    arith,
    stored_at-remove topic (split_topic t) r.index,
    levels_beq-split topic t,
    h.indexed t,
    lookup-delete topic t r.messages,
    str_beq_iff topic t,
  );
  named = λ ps m e. h.named ps m (ground (arith, e, stored_at-remove topic ps r.index));
}

insert-IsStore :
    (msg : RetainedMessage) (r : RetainedStore)
    → IsStore r
    → IsStore (record {
      messages = insert msg.topic msg r.messages;
      index = add_to_index (split_topic msg.topic) msg r.index;
    })
insert-IsStore msg r h = record {
  nodes = add_to_index-IsIndex (split_topic msg.topic) msg r.index h.nodes;
  indexed = λ t. ground (
    arith,
    stored_at-add (split_topic msg.topic) (split_topic t) msg r.index,
    levels_beq-split msg.topic t,
    h.indexed t,
    lookup-insert msg.topic t msg r.messages,
    str_beq_iff msg.topic t,
  );
  named = λ ps m e. elim (Bool-cases (levels_beq (split_topic msg.topic) ps)) [
    | inl b ↦
        let is : msg ≡ m =
          some-eq-some (ground (arith, e, stored_at-add (split_topic msg.topic) ps msg r.index)) in
        ap (λ (x : RetainedMessage). split_topic x.topic) (sym is)
        ∙ (levels_beq_iff (split_topic msg.topic) ps).0 b
    | inr b ↦ h.named ps m (ground (arith, e, stored_at-add (split_topic msg.topic) ps msg r.index))
  ];
}

pub save_retained-IsStore :
    (now : ℕ) (msg : RetainedMessage) (r : RetainedStore)
    → IsStore r
    → IsStore (save_retained now msg r)
unfolding save_retained
save_retained-IsStore now msg r h = elim (Bool-cases (length msg.payload == 0)) [
  | inl b ↦ rw b (delete-IsStore msg.topic r h)
  | inr b ↦ rw b (
      insert-IsStore
        (record msg { timestamp = (if msg.timestamp == 0 then now else msg.timestamp) }) r h)
]

pub delete_retained-IsStore :
    (topic : Str) (r : RetainedStore) → IsStore r → IsStore (delete_retained topic r)
unfolding delete_retained
delete_retained-IsStore topic r h = delete-IsStore topic r h

-- In the empty store the trie is an index of the map; saving a message, whether its payload is empty
-- or not, and deleting one keep that.
pub operations-IsStore :
    (now : ℕ) (msg : RetainedMessage) (topic : Str) (r : RetainedStore)
    → IsStore r
    → IsStore new_retained_store
      × IsStore (save_retained now msg r)
      × IsStore (delete_retained topic r)
operations-IsStore now msg topic r h = (
  new_retained_store-IsStore,
  save_retained-IsStore now msg r h,
  delete_retained-IsStore topic r h,
)
