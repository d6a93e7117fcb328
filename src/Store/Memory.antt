-- ===== src/Store/Memory.antt =====
-- store/memory/memory.go: the retained messages, with the trie that finds them by pattern. Stored
-- values are deep copies of what a caller passes; a value of the model is never shared.
pub mod Index
pub mod Visits
pub mod Walk
pub mod Hits
pub mod Consistent
pub mod Retained
use shark_mqtt.Prelude.{
  ℕ, Bool, true, false, ◌&&◌, Option, none, some, List, [], ◌∷◌, ◌++◌, Str, length, is_some, ◌==◌,
  nat_eq, str_eq, if◌then◌else◌, any,
}
use shark_mqtt.Prelude.Map.{Map, lookup, insert, delete}
use shark_mqtt.Protocol.Topic.{hash, plus, split_topic}
use shark_mqtt.Trie.{Forest, nil, cons, Node, find, put, remove, no_children, or_new}

pub record RetainedMessage : Type 0 where
  pub topic : Str
  pub payload : Str
  pub qos : ℕ
  -- 0 is the zero time
  pub timestamp : ℕ
  pub properties : Str

-- `msg` is the value, `children` the forest.
abbrev pub RetainedTrie : Type 0
RetainedTrie = Node (Option RetainedMessage)

pub record RetainedStore : Type 0 where
  pub messages : Map Str RetainedMessage
  pub index : RetainedTrie

abbrev pub empty_trie : RetainedTrie
empty_trie = record { value = none; children = nil }

unfoldable pub new_retained_store : RetainedStore
new_retained_store = record { messages = []; index = empty_trie }

-- The loop of `addToIndex` over the parts that are left.
unfoldable pub add_to_index : List Str → RetainedMessage → RetainedTrie → RetainedTrie
add_to_index [] msg n = record n { value = some msg }
add_to_index (part ∷ parts) msg n = record n {
  children = put part (add_to_index parts msg (or_new none (find part n.children))) n.children;
}

abbrev pub is_unset : RetainedTrie → Bool
is_unset n = (if is_some n.value then false else true) && no_children n.children

-- The rest of `remove` once the call on the child has returned.
abbrev pub after_remove : Str → RetainedTrie → RetainedTrie × Bool → RetainedTrie × Bool
after_remove part n (child, emptied) =
    let n' = record n {
      children = (if emptied then remove part n.children else put part child n.children);
    } in
    (n', is_unset n')

-- `n.remove(parts, depth)` with `parts[depth:]`.
unfoldable pub remove_node : List Str → RetainedTrie → RetainedTrie × Bool
remove_node [] n = (record n { value = none }, no_children n.children)
remove_node (part ∷ parts) n = elim (find part n.children) [
  | none ↦ (n, false)
  | some child ↦ after_remove part n (remove_node parts child)
]

unfoldable pub remove_from_index : Str → RetainedTrie → RetainedTrie
remove_from_index topic n = (remove_node (split_topic topic) n).0

-- `SaveRetained` at the time `now`: an empty payload deletes.
unfoldable pub save_retained : ℕ → RetainedMessage → RetainedStore → RetainedStore
save_retained now msg r =
    let stored = record msg { timestamp = (if msg.timestamp == 0 then now else msg.timestamp) } in
    if length msg.payload == 0
    then record {
      messages = delete msg.topic r.messages;
      index = remove_from_index msg.topic r.index;
    }
    else record {
      messages = insert msg.topic stored r.messages;
      index = add_to_index (split_topic msg.topic) stored r.index;
    }

-- `none` is `ErrRetainedNotFound`.
unfoldable pub get_retained : Str → RetainedStore → Option RetainedMessage
get_retained topic r = lookup topic r.messages

unfoldable pub delete_retained : Str → RetainedStore → RetainedStore
delete_retained topic r = record {
  messages = delete topic r.messages;
  index = remove_from_index topic r.index;
}

-- The results with the set of the topics in them.
pub record Matched : Type 0 where
  pub result : List RetainedMessage
  pub visited : List Str

-- `if n.msg != nil { if !visited[n.msg.Topic] { ... } }`
unfoldable pub visit : Option RetainedMessage → Matched → Matched
visit none acc = acc
visit (some msg) acc =
    if any (λ t. t == msg.topic) acc.visited
    then acc
    else record { result = acc.result ++ msg ∷ []; visited = msg.topic ∷ acc.visited }

-- `collectAll` of each node of a forest.
unfoldable pub collect_children : Forest (Option RetainedMessage) → Matched → Matched
collect_children nil acc = acc
collect_children (cons _ msg kids rest) acc =
    collect_children rest (collect_children kids (visit msg acc))

unfoldable pub collect_all : RetainedTrie → Matched → Matched
collect_all n acc = collect_children n.children (visit n.value acc)

-- The loop of the "+" case over the children.
unfoldable pub each_child :
    (RetainedTrie → Matched → Matched) → Forest (Option RetainedMessage) → Matched → Matched
each_child f nil acc = acc
each_child f (cons _ msg kids rest) acc =
    each_child f rest (f (record { value = msg; children = kids }) acc)

abbrev pub on_child : Option RetainedTrie → (RetainedTrie → Matched → Matched) → Matched → Matched
on_child none f acc = acc
on_child (some child) f acc = f child acc

-- `n.match(parts, depth, ...)` with `parts[depth:]`.
unfoldable pub match_node : List Str → RetainedTrie → Matched → Matched
match_node [] n acc = visit n.value acc
match_node (part ∷ parts) n acc =
    let all = collect_all n acc in
    let children = each_child (match_node parts) n.children acc in
    let child = on_child (find part n.children) (match_node parts) acc in
    if part == hash then all else if part == plus then children else child

unfoldable pub match_retained : Str → RetainedStore → List RetainedMessage
match_retained pattern r =
    if length r.messages == 0
    then []
    else (match_node (split_topic pattern) r.index (record { result = []; visited = [] })).result
