-- ===== src/Broker/TopicTree/Total.antt =====
-- The counter `totalSubs` of broker/topic_tree.go across all the operations.
use shark_mqtt.Prelude.{
  ℕ, ◌+◌, ◌%◌, ◌^◌, ◌≤◌, ◌≡◌, refl, Bool, true, false, Option, none, some, [], ◌∷◌, Str, str_eq,
  length, is_some, str_beq_iff, if◌then◌else◌, arith, Bool-cases, inl, inr, ◌==◌,
}
use shark_mqtt.Prelude.Map.{Map, lookup, insert, delete, NodupKeys, length-insert, length-delete}
use shark_mqtt.Protocol.Topic.{split_topic, validate_topic_filter}
use shark_mqtt.Broker.TopicTree.{
  TopicTree, new_topic_tree, add_one, sub_one, no_entries, subscribe, unsubscribe,
}
use shark_mqtt.Broker.TopicTree.Valid.{IsTree}
use shark_mqtt.Broker.TopicTree.Count.{
  node_count, forest_count, subscribe_node-Counts, unsubscribe_node-Counts,
}
use shark_mqtt.Broker.TopicTree.Shared.{
  entries_of, filters_of, clients_of, subscribe_shared, remove_shared, unsubscribe_shared,
  match_shared,
}
use shark_mqtt.Broker.TopicTree.Shared.Served.{IsShared}

-- The sum of a map's values, each weighed.
module _ {V : Type 0} (w : V → ℕ) where
  unfoldable pub sum : Map Str V → ℕ
  sum [] = 0
  sum ((k, v) ∷ m) = w v + sum m

  abbrev weight : Option V → ℕ
  weight none = 0
  weight (some v) = w v

  sum-insert :
      (k : Str) (v : V) (m : Map Str V) → sum (insert k v m) + weight (lookup k m) ≡ sum m + w v
  unfolding sum insert lookup
  sum-insert k v [] = omega arith
  sum-insert k v ((j, x) ∷ m) = ground (arith, sum-insert k v m)

  sum-lookup : (k : Str) (m : Map Str V) → weight (lookup k m) ≤ sum m
  unfolding sum lookup
  sum-lookup k [] = omega arith
  sum-lookup k ((j, x) ∷ m) = ground (arith, sum-lookup k m)

  sum-absent : (k : Str) (m : Map Str V) → lookup k m ≡ none → sum (delete k m) ≡ sum m
  unfolding sum delete lookup
  sum-absent k [] e = refl
  sum-absent k ((j, x) ∷ m) e = ground (arith, sum-absent k m)

  sum-delete :
      (k : Str) (m : Map Str V) → NodupKeys m → sum (delete k m) + weight (lookup k m) ≡ sum m
  unfolding sum delete lookup
  sum-delete k [] h = omega arith
  sum-delete k ((j, x) ∷ m) h = elim (Bool-cases (j == k)) [
    | inl e ↦ rw e (rw (sum-absent k m (rw ((str_beq_iff j k).0 e) at h.0)) (omega arith))
    | inr e ↦ rw e (omega (arith, sum-delete k m h.1))
  ]

abbrev pub group_count : Map Str (Map Str ℕ) → ℕ
group_count filters = sum {V = Map Str ℕ} (λ m. length m) filters

abbrev pub shared_count : TopicTree → ℕ
shared_count t = sum group_count t.shared_subs

abbrev pub entry_count : TopicTree → ℕ
entry_count t = node_count t.root + shared_count t

abbrev pub IsCounted : TopicTree → Type 0
IsCounted t = t.total_subs ≡ entry_count t % 2 ^ 64

pub subscribe-IsCounted :
    (f c : Str) (q : ℕ) (t : TopicTree) → IsCounted t → IsCounted (subscribe f c q t).0
unfolding subscribe
subscribe-IsCounted f c q t h = elim (Bool-cases (validate_topic_filter f)) [
  | inl e ↦ rw e (subscribe_node-Counts (split_topic f) c q t.root t.total_subs (shared_count t) h)
  | inr e ↦ rw e h
]

pub unsubscribe-IsCounted :
    (f c : Str) (t : TopicTree) → IsTree t → IsCounted t → IsCounted (unsubscribe f c t)
unfolding unsubscribe
unsubscribe-IsCounted f c t v h =
    (unsubscribe_node-Counts (split_topic f) c t.root t.total_subs (shared_count t) v h).0

weight_entries :
    {V : Type 0} (w : V → ℕ) (o : Option (Map Str V)) → sum w (entries_of o) ≡ weight (sum w) o
unfolding sum
weight_entries w none = refl
weight_entries w (some m) = refl

weight-length : (o : Option (Map Str ℕ)) → length (entries_of o) ≡ weight (λ m. length m) o
weight-length none = refl
weight-length (some m) = refl

counted_up :
    (known : Bool) (total n m : ℕ)
    → total ≡ n % 2 ^ 64
    → m ≡ n + (if known then 0 else 1)
    → (if known then total else add_one total) ≡ m % 2 ^ 64
counted_up true total n m h e = omega (arith, h, e)
counted_up false total n m h e = omega (arith, h, e)

counted_down :
    (known : Bool) (total n m : ℕ)
    → total ≡ n % 2 ^ 64
    → m + (if known then 1 else 0) ≡ n
    → (if known then sub_one total else total) ≡ m % 2 ^ 64
counted_down true total n m h e = omega (arith, h, e)
counted_down false total n m h e = omega (arith, h, e)

pub subscribe_shared-IsCounted :
    (share filter c : Str) (q : ℕ) (t : TopicTree)
    → IsCounted t
    → IsCounted (subscribe_shared share filter c q t)
unfolding subscribe_shared
subscribe_shared-IsCounted share filter c q t h =
    let clients = clients_of share filter t in
    let filters = filters_of share t in
    let outer =
      sum-insert group_count share (insert filter (insert c q clients) filters) t.shared_subs in
    let inner = sum-insert {V = Map Str ℕ} (λ m. length m) filter (insert c q clients) filters in
    let a = weight_entries {V = Map Str ℕ} (λ m. length m) (lookup share t.shared_subs) in
    let b = weight-length (lookup filter filters) in
    let d = length-insert c q clients in
    counted_up (is_some (lookup c clients)) t.total_subs (entry_count t) _ h
      (omega (arith, outer, inner, a, b, d))

-- The sums after the group has been written back without a client.
module _ (filter c : Str) (filters : Map Str (Map Str ℕ)) (m : Map Str ℕ) where
  abbrev shrunk : Map Str (Map Str ℕ)
  shrunk =
      if no_entries (delete c m) then delete filter filters else insert filter (delete c m) filters

  shrunk_count :
      lookup filter filters ≡ some m
      → NodupKeys filters
      → group_count shrunk + length m ≡ group_count filters + length (delete c m)
  shrunk_count e h = elim (Bool-cases (no_entries (delete c m))) [
    | inl b ↦ rw b (
        omega (
          arith,
          (rw e at (sum-delete {V = Map Str ℕ} (λ l. length l) filter filters h)),
          empty (delete c m) b,
        ))
    | inr b ↦ rw b (
        omega (
          arith,
          (rw e at (sum-insert {V = Map Str ℕ} (λ l. length l) filter (delete c m) filters)),
        ))
  ]
    where
      empty : (l : Map Str ℕ) → no_entries l ≡ true → length l ≡ 0
      empty [] b = refl
      empty (x ∷ l) b = cc

group_back :
    (share : Str) (new old : Map Str (Map Str ℕ)) (groups : Map Str (Map Str (Map Str ℕ)))
    → lookup share groups ≡ some old
    → NodupKeys groups
    → sum group_count (if no_entries new then delete share groups else insert share new groups)
        + group_count old
      ≡ sum group_count groups + group_count new
group_back share new old groups e h = elim (Bool-cases (no_entries new)) [
  | inl b ↦ rw b (omega (arith, (rw e at (sum-delete group_count share groups h)), empty new b))
  | inr b ↦ rw b (omega (arith, (rw e at (sum-insert group_count share new groups))))
]
  where
    empty : (l : Map Str (Map Str ℕ)) → no_entries l ≡ true → group_count l ≡ 0
    empty [] b = unfold sum in refl
    empty (x ∷ l) b = cc

pub unsubscribe_shared-IsCounted :
    (share filter c : Str) (t : TopicTree)
    → IsShared t
    → IsCounted t
    → IsCounted (unsubscribe_shared share filter c t)
unfolding unsubscribe_shared
unsubscribe_shared-IsCounted share filter c t v h = go (lookup share t.shared_subs) refl
  where
    at_filter :
        (filters : Map Str (Map Str ℕ)) (p : Option (Map Str ℕ))
        → lookup share t.shared_subs ≡ some filters
        → lookup filter filters ≡ p
        → IsCounted (elim p [ none ↦ t | some m ↦ remove_shared share filter c m t ])
    at_filter filters none e f = h
    at_filter filters (some m) e f =
        let group = v.groups share filters e in
        let outer = group_back share (shrunk filter c filters m) filters t.shared_subs e v.once in
        let inner = shrunk_count filter c filters m f group.once in
        let client = length-delete c m (group.clients filter m f).0 in
        rw e (
          counted_down (is_some (lookup c m)) t.total_subs (entry_count t) _ h
            (omega (arith, outer, inner, client)))

    go :
        (o : Option (Map Str (Map Str ℕ)))
        → lookup share t.shared_subs ≡ o
        → IsCounted (elim o [
          | none ↦ t
          | some filters ↦ elim (lookup filter filters) [
            | none ↦ t
            | some m ↦ remove_shared share filter c m t
          ]
        ])
    go none e = h
    go (some filters) e = at_filter filters (lookup filter filters) e refl

-- The counter is the number of entries that the tree holds, in the trie and in the shared groups,
-- modulo 2 ^ 64: in a new tree, and after subscribing (to a refused filter too, or again), after
-- unsubscribing (what is not subscribed too) and after a match, shared or not.
pub operations-IsCounted :
    (f c share topic : Str) (q : ℕ) (o : Option (Str → Bool)) (t : TopicTree)
    → IsTree t
    → IsShared t
    → IsCounted t
    → IsCounted new_topic_tree
      × IsCounted (subscribe f c q t).0
      × IsCounted (unsubscribe f c t)
      × IsCounted (subscribe_shared share f c q t)
      × IsCounted (unsubscribe_shared share f c t)
      × IsCounted (match_shared o topic t).1
unfolding new_topic_tree match_shared sum forest_count
operations-IsCounted f c share topic q o t v w h = (
  omega arith,
  subscribe-IsCounted f c q t h,
  unsubscribe-IsCounted f c t v h,
  subscribe_shared-IsCounted share f c q t h,
  unsubscribe_shared-IsCounted share f c t w h,
  h,
)
