-- ===== src/Broker/TopicTree/Shared.antt =====
-- The shared subscriptions of broker/topic_tree.go: groups whose members take turns.
pub mod Order
pub mod Turns
pub mod Groups
pub mod Choice
pub mod Served
pub mod Rounds
pub mod Kept
use shark_mqtt.Prelude.{
  ℕ, zero, suc, ◌+◌, Bool, true, false, not, ◌&&◌, ◌||◌, Option, none, some, List, [], ◌∷◌, ◌++◌,
  Str, codes, length, take, drop, is_some, ltb, ◌==◌, nat_eq, str_eq, if◌then◌else◌,
}
use shark_mqtt.Prelude.Map.{Map, lookup, insert, delete}
use shark_mqtt.Protocol.Topic.{slash, match_sys_protected}
use shark_mqtt.Broker.TopicTree.{TopicTree, add_one, sub_one, no_entries}
use shark_mqtt.Broker.TopicTree.Found.{Subscriber, Found, add_subscribers, nothing_found}

abbrev pub shared_sub_prefix : Str
shared_sub_prefix = codes "$share/"

unfoldable pub is_shared_subscription : Str → Bool
is_shared_subscription filter = ltb 7 (length filter) && take 7 filter == shared_sub_prefix

-- What stands before and behind the first slash.
unfoldable pub cut_at_slash : Str → Option (Str × Str)
cut_at_slash [] = none
cut_at_slash (b ∷ rest) =
    let further = cut_at_slash rest in
    if b == slash
    then some ([], rest)
    else elim further [ none ↦ none | some (name, filter) ↦ some (b ∷ name, filter) ]

abbrev pub both_filled : Str × Str → Option (Str × Str)
both_filled (name, filter) =
    if length name == 0 || length filter == 0 then none else some (name, filter)

-- `none` where `ok` is false
unfoldable pub parse_shared_filter : Str → Option (Str × Str)
parse_shared_filter filter =
    if is_shared_subscription filter
    then elim (cut_at_slash (drop 7 filter)) [ none ↦ none | some parts ↦ both_filled parts ]
    else none

-- A nil map reads as an empty one.
abbrev pub entries_of {ℓ κ} : {K : Type ℓ} {V : Type κ} → Option (Map K V) → Map K V
entries_of none = []
entries_of (some m) = m

-- `tt.sharedSubs[shareName]` and `tt.sharedSubs[shareName][topicFilter]`
abbrev pub filters_of : Str → TopicTree → Map Str (Map Str ℕ)
filters_of share t = entries_of (lookup share t.shared_subs)

abbrev pub clients_of : Str → Str → TopicTree → Map Str ℕ
clients_of share filter t = entries_of (lookup filter (filters_of share t))

unfoldable pub subscribe_shared : Str → Str → Str → ℕ → TopicTree → TopicTree
subscribe_shared share filter client qos t =
    let clients = clients_of share filter t in
    record t {
      total_subs = (if is_some (lookup client clients) then t.total_subs else add_one t.total_subs);
      shared_subs =
          insert share (insert filter (insert client qos clients) (filters_of share t))
            t.shared_subs;
    }

-- The rest of `UnsubscribeShared` once the filter's clients are known to be there.
abbrev pub remove_shared : Str → Str → Str → Map Str ℕ → TopicTree → TopicTree
remove_shared share filter client clients t =
    let clients' = delete client clients in
    let filters =
      (if no_entries clients'
        then delete filter (filters_of share t)
        else insert filter clients' (filters_of share t)) in
    record t {
      total_subs = (if is_some (lookup client clients) then sub_one t.total_subs else t.total_subs);
      shared_subs =
          (if no_entries filters
            then delete share t.shared_subs
            else insert share filters t.shared_subs);
      shared_last = (if no_entries filters then delete share t.shared_last else t.shared_last);
    }

unfoldable pub unsubscribe_shared : Str → Str → Str → TopicTree → TopicTree
unsubscribe_shared share filter client t = elim (lookup share t.shared_subs) [
  | none ↦ t
  | some filters ↦ elim (lookup filter filters) [
    | none ↦ t
    | some clients ↦ remove_shared share filter client clients t
  ]
]

pub record SharedSubscriber : Type 0 where
  pub client_id : Str
  pub qos : ℕ
  pub share_name : Str

-- The order of Go's strings.
unfoldable pub str_ltb : Str → Str → Bool
str_ltb s [] = false
str_ltb [] (b ∷ t) = true
str_ltb (a ∷ s) (b ∷ t) =
    let rest = str_ltb s t in if ltb a b then true else if a == b then rest else false

-- The members of the matching filters, the highest QoS of each: `seen` and `members` are kept as
-- `addSubscriber` keeps `visited` and `results`.
unfoldable pub collect_members : Str → Map Str (Map Str ℕ) → Found → Found
collect_members topic [] f = f
collect_members topic ((filter, clients) ∷ filters) f =
    collect_members topic filters
      (if match_sys_protected filter topic then add_subscribers clients f else f)

-- `sort.Slice(members, ...)` by client id; each id is there once.
unfoldable pub insert_member : Subscriber → List Subscriber → List Subscriber
insert_member m [] = m ∷ []
insert_member m (n ∷ ms) =
    let rest = n ∷ insert_member m ms in
    if str_ltb m.client_id n.client_id then m ∷ n ∷ ms else rest

unfoldable pub sort_members : List Subscriber → List Subscriber
sort_members [] = []
sort_members (m ∷ ms) = insert_member m (sort_members ms)

-- `isOnline` is none where it is nil.
unfoldable pub keep_online : Option (Str → Bool) → List Subscriber → List Subscriber
keep_online none ms = ms
keep_online (some online) [] = []
keep_online (some online) (m ∷ ms) =
    let rest = keep_online (some online) ms in if online m.client_id then m ∷ rest else rest

-- `sort.Search` for the last selected client: the members behind it, none if it is not there.
unfoldable pub behind : Str → List Subscriber → Option (List Subscriber)
behind last [] = none
behind last (m ∷ ms) =
    let rest = behind last ms in
    if str_ltb m.client_id last then rest else if m.client_id == last then some ms else none

abbrev pub first_of : Subscriber → List Subscriber → Subscriber
first_of m [] = m
first_of m (n ∷ _) = n

-- The member that is selected after `last`; the first one for no member or the last one.
unfoldable pub select : Str → Subscriber → List Subscriber → Str
select last m ms = if length last == 0 then m.client_id else elim (behind last (m ∷ ms)) [
  | none ↦ m.client_id
  | some rest ↦ (first_of m rest).client_id
]

unfoldable pub qos_of : Str → List Subscriber → ℕ
qos_of client [] = 0
qos_of client (m ∷ ms) =
    let rest = qos_of client ms in if m.client_id == client then m.qos else rest

abbrev pub last_of : Option Str → Str
last_of none = []
last_of (some s) = s

-- The members of a group among whom one is selected.
unfoldable pub eligible : Option (Str → Bool) → Str → Map Str (Map Str ℕ) → List Subscriber
eligible online topic filters =
    keep_online online (sort_members (collect_members topic filters nothing_found).results)

abbrev pub select_in : Str → List Subscriber → Map Str Str → Option SharedSubscriber × Map Str Str
select_in share [] last = (none, last)
select_in share (m ∷ ms) last =
    let sel = select (last_of (lookup share last)) m ms in
    (
      some (record { client_id = sel; qos = qos_of sel (m ∷ ms); share_name = share }),
      insert share sel last,
    )

abbrev pub and_result : Option SharedSubscriber → List SharedSubscriber → List SharedSubscriber
and_result none rs = rs
and_result (some r) rs = r ∷ rs

-- The loop over the groups.
unfoldable pub match_groups :
    Option (Str → Bool)
    → Str
    → Map Str (Map Str (Map Str ℕ))
    → Map Str Str
    → List SharedSubscriber × Map Str Str
match_groups online topic [] last = ([], last)
match_groups online topic ((share, filters) ∷ groups) last =
    let (r, last') = select_in share (eligible online topic filters) last in
    let (rs, last'') = match_groups online topic groups last' in (and_result r rs, last'')

-- `matchShared(topic, isOnline)`
unfoldable pub match_shared :
    Option (Str → Bool) → Str → TopicTree → List SharedSubscriber × TopicTree
match_shared online topic t =
    let (rs, last) = match_groups online topic t.shared_subs t.shared_last in
    (rs, record t { shared_last = last })
