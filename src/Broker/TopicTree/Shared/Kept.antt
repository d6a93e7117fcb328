-- ===== src/Broker/TopicTree/Shared/Kept.antt =====
-- What the operations of broker/topic_tree.go keep of the shared subscriptions.
use shark_mqtt.Prelude.{
  ℕ, ◌≡◌, ◌≢◌, ◌∙◌, refl, sym, Bool, false, Option, none, some, [], ◌∷◌, Str, str_eq, str_beq,
  if◌then◌else◌, arith, Bool-cases, none-ne-some, some-eq-some, inl, inr, ◌==◌, WhenSome,
}
use mathlib.Core.Path.{subst}
use shark_mqtt.Prelude.Map.{
  Map, lookup, insert, delete, lookup-insert, lookup-delete, NodupKeys, insert-NodupKeys,
  delete-NodupKeys,
}
use shark_mqtt.Broker.TopicTree.{TopicTree, new_topic_tree, no_entries}
use shark_mqtt.Broker.TopicTree.Shared.{
  entries_of, filters_of, clients_of, subscribe_shared, remove_shared, unsubscribe_shared,
  match_shared,
}
use shark_mqtt.Broker.TopicTree.Shared.Groups.{IsGroup, lookup_empty}
use shark_mqtt.Broker.TopicTree.Shared.Choice.{no_group}
use shark_mqtt.Broker.TopicTree.Shared.Served.{IsShared}

abbrev Clients : Map Str ℕ → Type 0
Clients m = NodupKeys m × (m ≢ [])

-- A group, or none yet.
abbrev MaybeGroup : Map Str (Map Str ℕ) → Type 0
MaybeGroup filters =
    NodupKeys filters
    × ((filter : Str) (m : Map Str ℕ) → lookup filter filters ≡ some m → Clients m)

insert_ne_nil : {V : Type 0} (k : Str) (v : V) (m : Map Str V) → insert k v m ≢ []
unfolding insert
insert_ne_nil k v [] = λ e. cc
insert_ne_nil k v ((j, w) ∷ m) = elim (Bool-cases (j == k)) [
  | inl b ↦ rw b (λ e. cc)
  | inr b ↦ rw b (λ e. cc)
]

no_entries_iff : {V : Type 0} (m : Map Str V) → no_entries m ≡ false → m ≢ []
no_entries_iff [] h = λ e. absurd (ground (arith, h))
no_entries_iff (x ∷ m) h = λ e. cc

-- Writes to a map whose values all satisfy a predicate.
module _ {V : Type 0} (P : V → Type 0) where
  abbrev Each : Map Str V → Type 0
  Each m = (k : Str) (v : V) → lookup k m ≡ some v → P v

  insert-Each : (k : Str) (v : V) (m : Map Str V) → P v → Each m → Each (insert k v m)
  insert-Each k v m p h = λ j w e. elim (Bool-cases (str_beq k j)) [
    | inl b ↦ subst P (some-eq-some (rw b at (sym (lookup-insert k j v m) ∙ e))) p
    | inr b ↦ h j w (rw b at (sym (lookup-insert k j v m) ∙ e))
  ]

  delete-Each : (k : Str) (m : Map Str V) → Each m → Each (delete k m)
  delete-Each k m h = λ j w e. elim (Bool-cases (str_beq k j)) [
    | inl b ↦ absurd (none-ne-some (rw b at (sym (lookup-delete k j m) ∙ e)))
    | inr b ↦ h j w (rw b at (sym (lookup-delete k j m) ∙ e))
  ]

  entries : (k : Str) (m : Map Str V) → Each m → WhenSome P (lookup k m)
  entries k m h = go (lookup k m) refl
    where
      go : (o : Option V) → lookup k m ≡ o → WhenSome P o
      go none e = tt
      go (some v) e = h k v e

filters_of-MaybeGroup : (share : Str) (t : TopicTree) → IsShared t → MaybeGroup (filters_of share t)
filters_of-MaybeGroup share t h =
    go (lookup share t.shared_subs) (entries IsGroup share t.shared_subs h.groups)
  where
    go : (o : Option (Map Str (Map Str ℕ))) → WhenSome IsGroup o → MaybeGroup (entries_of o)
    go none g = (tt, λ f m e. absurd (lookup_empty f m e))
    go (some filters) g = (g.once, g.clients)

clients_of-NodupKeys :
    (share filter : Str) (t : TopicTree) → IsShared t → NodupKeys (clients_of share filter t)
clients_of-NodupKeys share filter t h =
    go (lookup filter (filters_of share t))
      (entries Clients filter (filters_of share t) (filters_of-MaybeGroup share t h).1)
  where
    go : (o : Option (Map Str ℕ)) → WhenSome Clients o → NodupKeys (entries_of o)
    go none g = tt
    go (some m) g = g.0

pub subscribe_shared-IsShared :
    (share filter c : Str) (q : ℕ) (t : TopicTree)
    → IsShared t
    → IsShared (subscribe_shared share filter c q t)
unfolding subscribe_shared
subscribe_shared-IsShared share filter c q t h =
    let (nodup, used) = filters_of-MaybeGroup share t h in
    let clients = insert c q (clients_of share filter t) in
    let filters = insert filter clients (filters_of share t) in
    let group : IsGroup filters = record {
      once = insert-NodupKeys filter clients (filters_of share t) nodup;
      used = insert_ne_nil filter clients (filters_of share t);
      clients =
          insert-Each Clients filter clients (filters_of share t)
            (insert-NodupKeys c q _ (clients_of-NodupKeys share filter t h), insert_ne_nil c q _)
            used;
    } in
    record {
      once = insert-NodupKeys share filters t.shared_subs h.once;
      groups = insert-Each IsGroup share filters t.shared_subs group h.groups;
      remembered = λ s d e gone.
          h.remembered s d e (ground (arith, lookup-insert share s filters t.shared_subs, gone));
    }

-- A filter of a group without a client; the filter goes when nobody is left.
without_client-MaybeGroup :
    (filter c : Str) (filters : Map Str (Map Str ℕ)) (m : Map Str ℕ)
    → MaybeGroup filters
    → NodupKeys m
    → MaybeGroup (
        if no_entries (delete c m)
        then delete filter filters
        else insert filter (delete c m) filters)
without_client-MaybeGroup filter c filters m g h = elim (Bool-cases (no_entries (delete c m))) [
  | inl e ↦ rw e (delete-NodupKeys filter filters g.0, delete-Each Clients filter filters g.1)
  | inr e ↦ rw e (
    insert-NodupKeys filter (delete c m) filters g.0,
    insert-Each Clients filter (delete c m) filters
        (delete-NodupKeys c m h, no_entries_iff (delete c m) e) g.1,
  )
]

-- A group is written back, or goes with what is remembered of it when no filter is left.
write_group-IsShared :
    (share : Str) (filters : Map Str (Map Str ℕ)) (total : ℕ) (t : TopicTree)
    → MaybeGroup filters
    → IsShared t
    → IsShared (record t {
      total_subs = total;
      shared_subs =
          (if no_entries filters
            then delete share t.shared_subs
            else insert share filters t.shared_subs);
      shared_last = (if no_entries filters then delete share t.shared_last else t.shared_last);
    })
write_group-IsShared share filters total t g h = elim (Bool-cases (no_entries filters)) [
  | inl e ↦ rw e (record {
    once = delete-NodupKeys share t.shared_subs h.once;
    groups = delete-Each IsGroup share t.shared_subs h.groups;
    remembered = λ s d r gone.
        h.remembered s d (ground (arith, lookup-delete share s t.shared_last, r)) (
          ground (
            arith,
            lookup-delete share s t.shared_last,
            r,
            lookup-delete share s t.shared_subs,
            gone,
          ));
  })
  | inr e ↦ rw e (record {
    once = insert-NodupKeys share filters t.shared_subs h.once;
    groups =
        insert-Each IsGroup share filters t.shared_subs
          (record { once = g.0; used = no_entries_iff filters e; clients = g.1 }) h.groups;
    remembered = λ s d r gone.
        h.remembered s d r (ground (arith, lookup-insert share s filters t.shared_subs, gone));
  })
]

pub unsubscribe_shared-IsShared :
    (share filter c : Str) (t : TopicTree)
    → IsShared t
    → IsShared (unsubscribe_shared share filter c t)
unfolding unsubscribe_shared
unsubscribe_shared-IsShared share filter c t h = go (lookup share t.shared_subs) refl
  where
    at_filter :
        (filters : Map Str (Map Str ℕ)) (p : Option (Map Str ℕ))
        → lookup share t.shared_subs ≡ some filters
        → lookup filter filters ≡ p
        → IsShared (elim p [ none ↦ t | some m ↦ remove_shared share filter c m t ])
    at_filter filters none e f = h
    at_filter filters (some m) e f =
        let group = h.groups share filters e in
        rw e (
          write_group-IsShared share _ _ t
            (without_client-MaybeGroup filter c filters m (group.once, group.clients)
              (group.clients filter m f).0)
            h)

    go :
        (o : Option (Map Str (Map Str ℕ)))
        → lookup share t.shared_subs ≡ o
        → IsShared (elim o [
          | none ↦ t
          | some filters ↦ elim (lookup filter filters) [
            | none ↦ t
            | some m ↦ remove_shared share filter c m t
          ]
        ])
    go none e = h
    go (some filters) e = at_filter filters (lookup filter filters) e refl

pub match_shared-IsShared :
    (o : Option (Str → Bool)) (topic : Str) (t : TopicTree)
    → IsShared t
    → IsShared (match_shared o topic t).1
unfolding match_shared
match_shared-IsShared o topic t h = record {
  once = h.once;
  groups = h.groups;
  remembered = λ s d r gone.
      h.remembered s d (sym (no_group o topic s t.shared_subs t.shared_last gone).1 ∙ r) gone;
}

pub new_topic_tree-IsShared : IsShared new_topic_tree
unfolding new_topic_tree lookup
new_topic_tree-IsShared = record {
  once = tt;
  groups = λ s f e. absurd (none-ne-some e);
  remembered = λ s d e. absurd (none-ne-some e);
}

-- The shared subscriptions are well formed in a new tree and after each of `SubscribeShared`,
-- `UnsubscribeShared` and `MatchShared`: each group, filter and client stands once, no group or
-- filter is left without clients, and a last selection is remembered of groups only.
pub operations-IsShared :
    (share filter c topic : Str) (q : ℕ) (o : Option (Str → Bool)) (t : TopicTree)
    → IsShared t
    → IsShared new_topic_tree
      × IsShared (subscribe_shared share filter c q t)
      × IsShared (unsubscribe_shared share filter c t)
      × IsShared (match_shared o topic t).1
operations-IsShared share filter c topic q o t h = (
  new_topic_tree-IsShared,
  subscribe_shared-IsShared share filter c q t h,
  unsubscribe_shared-IsShared share filter c t h,
  match_shared-IsShared o topic t h,
)
