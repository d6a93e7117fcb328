-- ===== src/Broker/TopicTree/Stats.antt =====
-- The listing of broker/topic_tree.go: `SubscriberCount` and `Stats`.
use shark_mqtt.Prelude.{
  ℕ, ◌+◌, ◌-◌, ◌%◌, ◌^◌, ◌≡◌, ◌∙◌, refl, ap, ltb, if◌then◌else◌, Bool, true, false, none, some,
  List, [], ◌∷◌, ◌++◌, append-nil, Str, length, drop, arith, ◌<◌,
}
use shark_mqtt.Prelude.Map.{Map}
use shark_mqtt.Protocol.Topic.{slash, split_topic, split_from, validate_topic_filter}
use shark_mqtt.Trie.{Forest, nil, cons, find, put}
use shark_mqtt.Broker.TopicTree.{TopicTree, TopicNode, new_topic_tree, subscribe, subscribe_node}
use shark_mqtt.Broker.TopicTree.Count.{forest_count}
use shark_mqtt.Broker.TopicTree.Total.{sum, group_count, entry_count, IsCounted}
use shark_mqtt.Broker.TopicTree.Shared.{is_shared_subscription, cut_at_slash}

-- `negsuc n` is - (n + 1).
pub data ℤ : Type 0 where
  pos negsuc : ℕ → ℤ

-- The int64 with a bit pattern.
abbrev pub int64 : ℕ → ℤ
int64 n = if ltb n (2 ^ 63) then pos n else negsuc (2 ^ 64 - 1 - n)

unfoldable pub subscriber_count : TopicTree → ℤ
subscriber_count t = int64 t.total_subs

pub record TopicFilterStat : Type 0 where
  pub filter : Str
  pub shared : Bool
  pub group : Str
  pub subscribers : Map Str ℕ

-- The parts of the filter, the group, and whether it is shared.
unfoldable pub split_shared_filter : Str → Str × Str × Bool
split_shared_filter filter =
    let rest = drop 7 filter in
    elim (is_shared_subscription filter) [
      | false ↦ (filter, [], false)
      | true ↦ elim (cut_at_slash rest) [
        | none ↦ (rest, [], true)
        | some (name, base) ↦ (base, name, true)
      ]
    ]

-- What `walk` lists of a node itself.
unfoldable pub stat_here : Str → Map Str ℕ → List TopicFilterStat
stat_here prefix [] = []
stat_here prefix (s ∷ subs) =
    let (filter, group, shared) = split_shared_filter prefix in
    record { filter = filter; shared = shared; group = group; subscribers = s ∷ subs } ∷ []

abbrev pub below : Str → Str → Str
below [] part = part
below (b ∷ prefix) part = b ∷ prefix ++ slash ∷ part

-- What `walk` lists of the children of a node.
unfoldable pub walk : Str → Forest (Map Str ℕ) → List TopicFilterStat
walk prefix nil = []
walk prefix (cons part subs kids rest) =
    stat_here (below prefix part) subs ++ (walk (below prefix part) kids ++ walk prefix rest)

unfoldable pub list_filters : Str → Map Str (Map Str ℕ) → List TopicFilterStat
list_filters group [] = []
list_filters group ((filter, clients) ∷ filters) =
    record { filter = filter; shared = true; group = group; subscribers = clients }
    ∷ list_filters group filters

unfoldable pub list_groups : Map Str (Map Str (Map Str ℕ)) → List TopicFilterStat
list_groups [] = []
list_groups ((group, filters) ∷ groups) = list_filters group filters ++ list_groups groups

unfoldable pub stats : TopicTree → List TopicFilterStat
stats t = stat_here [] t.root.value ++ (walk [] t.root.children ++ list_groups t.shared_subs)

-- The number of entries in a listing.
unfoldable pub listed : List TopicFilterStat → ℕ
listed [] = 0
listed (s ∷ out) = length s.subscribers + listed out

listed-append : (xs ys : List TopicFilterStat) → listed (xs ++ ys) ≡ listed xs + listed ys
unfolding listed
listed-append [] ys = omega arith
listed-append (x ∷ xs) ys = omega (arith, listed-append xs ys)

listed-stat_here : (prefix : Str) (m : Map Str ℕ) → listed (stat_here prefix m) ≡ length m
unfolding listed stat_here
listed-stat_here prefix [] = refl
listed-stat_here prefix (s ∷ m) = omega arith

listed-walk : (prefix : Str) (t : Forest (Map Str ℕ)) → listed (walk prefix t) ≡ forest_count t
unfolding listed walk forest_count
listed-walk prefix nil = refl
listed-walk prefix (cons part m kids rest) =
    let here = stat_here (below prefix part) m in
    let under = walk (below prefix part) kids in
    omega (
      arith,
      listed-append here (under ++ walk prefix rest),
      listed-append under (walk prefix rest),
      listed-stat_here (below prefix part) m,
      listed-walk (below prefix part) kids,
      listed-walk prefix rest,
    )

listed-list_filters :
    (group : Str) (filters : Map Str (Map Str ℕ))
    → listed (list_filters group filters) ≡ group_count filters
unfolding listed list_filters sum
listed-list_filters group [] = refl
listed-list_filters group ((filter, m) ∷ filters) = omega (arith, listed-list_filters group filters)

listed-list_groups :
    (groups : Map Str (Map Str (Map Str ℕ))) → listed (list_groups groups) ≡ sum group_count groups
unfolding listed list_groups sum
listed-list_groups [] = refl
listed-list_groups ((group, filters) ∷ groups) = omega (
  arith,
  listed-append (list_filters group filters) (list_groups groups),
  listed-list_filters group filters,
  listed-list_groups groups,
)

listed-stats : (t : TopicTree) → listed (stats t) ≡ entry_count t
unfolding stats
listed-stats t =
    let here = stat_here [] t.root.value in
    let under = walk [] t.root.children in
    let shared = list_groups t.shared_subs in
    omega (
      arith,
      listed-append here (under ++ shared),
      listed-append under shared,
      listed-stat_here [] t.root.value,
      listed-walk [] t.root.children,
      listed-list_groups t.shared_subs,
    )

-- `Stats` lists as many entries as the tree holds, and `SubscriberCount` is the int64 that their number
-- wraps to, so it is their number where that is less than 2 ^ 63. (The counter of the tree is right.)
pub subscriber_count-stats :
    (t : TopicTree)
    → IsCounted t
    → (listed (stats t) ≡ entry_count t)
      × (subscriber_count t ≡ int64 (listed (stats t) % 2 ^ 64))
      × (listed (stats t) < 2 ^ 63 → subscriber_count t ≡ pos (listed (stats t)))
unfolding subscriber_count
subscriber_count-stats t h =
    let wraps : t.total_subs ≡ listed (stats t) % 2 ^ 64 = omega (arith, h, listed-stats t) in
    (
      listed-stats t,
      ap int64 wraps,
      λ small.
          let same : t.total_subs ≡ listed (stats t) = omega (arith, wraps, small) in
          let fits : ltb (listed (stats t)) (2 ^ 63) ≡ true = ground (arith, small) in
          ap int64 same ∙ rw fits refl,
    )

-- The bug: the listing gives a filter that begins with a slash without it, so that a tree with
-- the one filter "/f" is listed as the tree with the filter "f" is.
pub stats_leading_slash :
    (f c : Str) (q : ℕ)
    → validate_topic_filter f ≡ true
    → validate_topic_filter (slash ∷ f) ≡ true
    → stats (subscribe (slash ∷ f) c q new_topic_tree).0 ≡ stats (subscribe f c q new_topic_tree).0
unfolding stats subscribe subscribe_node new_topic_tree stat_here walk find put list_groups
stats_leading_slash f c q h k = rw h (
    rw k (
      rw slash_first
        (moved (subscribe_node (split_topic f) c q (record { value = []; children = nil }) 0).0)))
  where
    slash_first : split_topic (slash ∷ f) ≡ [] ∷ split_topic f
    slash_first = unfold split_topic split_from in refl

    moved :
        (n : TopicNode)
        → (stat_here [] n.value ++ (walk [] n.children ++ [])) ++ []
          ≡ stat_here [] n.value ++ (walk [] n.children ++ [])
    moved n = append-nil _
