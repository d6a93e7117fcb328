-- ===== src/Broker/TopicTree/Shared/Rounds.antt =====
-- Messages in a row to a shared group of broker/topic_tree.go: the members take turns.
use shark_mqtt.Prelude.{
  ℕ, zero, suc, ◌≡◌, ◌≢◌, ◌⊎◌, ◌↔◌, ◌∙◌, refl, sym, ap, Bool, true, Option, none, some, List, [],
  ◌∷◌, ◌++◌, Str, All, str_eq, str_beq_iff, length, nat_eq, ◌==◌, Bool-cases, inl, inr, arith,
  none-ne-some, append_assoc,
}
use mathlib.Core.Path.{subst}
use shark_mqtt.Broker.TopicTree.Results.{result_of}
use shark_mqtt.Broker.TopicTree.Shared.Order.{IsSorted, Before, str_ltb→Before, is_online}
use shark_mqtt.Prelude.Map.{Map, lookup, NodupKeys}
use shark_mqtt.Broker.TopicTree.{TopicTree}
use shark_mqtt.Broker.TopicTree.Found.{Subscriber}
use shark_mqtt.Broker.TopicTree.Shared.{
  SharedSubscriber, eligible, str_ltb, select, last_of, match_shared,
}
use shark_mqtt.Broker.TopicTree.Shared.Choice.{results_for, its_group, lookup_new}
use shark_mqtt.Broker.TopicTree.Shared.Served.{IsShared}
use shark_mqtt.Broker.TopicTree.Shared.Turns.{
  turns, ids, ids-append, middle-All, Named, IsRotation, turns-IsRotation,
}
use shark_mqtt.Broker.TopicTree.Shared.Groups.{
  IsGroup, Member, eligible-IsSorted, eligible_sound, eligible_complete,
}

-- The clients of a group that `n` messages in a row on a topic are handed to.
unfoldable pub clients_in : List SharedSubscriber → List Str
clients_in [] = []
clients_in (r ∷ rs) = r.client_id ∷ clients_in rs

unfoldable pub served : ℕ → Option (Str → Bool) → Str → Str → TopicTree → List Str
served zero o topic share t = []
served (suc n) o topic share t =
    let (rs, t') = match_shared o topic t in
    clients_in (results_for share rs) ++ served n o topic share t'

served-turns :
    (n : ℕ) (o : Option (Str → Bool)) (topic share : Str) (t : TopicTree)
    (filters : Map Str (Map Str ℕ)) (m : Subscriber) (ms : List Subscriber)
    → NodupKeys t.shared_subs
    → lookup share t.shared_subs ≡ some filters
    → eligible o topic filters ≡ m ∷ ms
    → served n o topic share t ≡ turns n (last_of (lookup share t.shared_last)) m ms
unfolding served turns match_shared clients_in
served-turns zero o topic share t filters m ms h e k = refl
served-turns (suc n) o topic share t filters m ms h e k =
    let last = last_of (lookup share t.shared_last) in
    let sel = select last m ms in
    let t' = (match_shared o topic t).1 in
    let (now, kept) = its_group o topic share t.shared_subs t.shared_last filters h e in
    let remembered : lookup share t'.shared_last ≡ some sel =
      kept ∙ rw k (lookup_new share sel t.shared_last) in
    let rest : served n o topic share t' ≡ turns n (last_of (lookup share t'.shared_last)) m ms =
      served-turns n o topic share t' filters m ms h e k in
    let first : clients_in (results_for share (match_shared o topic t).0) ≡ sel ∷ [] =
      rw now (rw k refl) in
    rw first (ap (λ l. sel ∷ l) (rest ∙ (rw remembered refl)))

abbrev pub Listed : Str → List Str → Type 0
Listed c [] = ⊥
Listed c (d ∷ ds) = (c ≡ d) ⊎ Listed c ds

-- Each string stands before all that follow it.
abbrev pub Ascending : List Str → Type 0
Ascending [] = Unit
Ascending (c ∷ cs) = All (Before c) cs × Ascending cs

-- The members of a group that can get a message: who is online and has subscribed to a filter of the
-- group that matches the topic, once each, in the order of their ids.
pub record AreMembers (o : Option (Str → Bool)) (topic : Str) (filters : Map Str (Map Str ℕ))
    (members : List Str) : Type 0 where
  pub ascending : Ascending members
  pub listed :
      (c : Str) → Listed c members ↔ ((is_online o c ≡ true) × ((q : ℕ) × Member topic filters c q))

-- They take their turns once each, from the one behind the member that was selected last, and from the
-- first one if that is no member.
abbrev pub TakeTurns : Option Str → List Str → List Str → Type 0
TakeTurns last members sels =
    (front : List Str) × (back : List Str) × (members ≡ front ++ back)
    × (sels ≡ back ++ front)
    × (((front ≡ []) × (Listed (last_of last) members → ⊥))
        ⊎ ((pre : List Str) × (c : Str) × (front ≡ pre ++ c ∷ []) × (last ≡ some c)))

ids-Ascending : (ms : List Subscriber) → IsSorted ms → Ascending (ids ms)
unfolding ids
ids-Ascending [] h = tt
ids-Ascending (m ∷ ms) h = (all_before m ms h.0, ids-Ascending ms h.1)
  where
    all_before :
        (m : Subscriber) (ms : List Subscriber)
        → All (λ n. str_ltb m.client_id n.client_id ≡ true) ms
        → All (Before m.client_id) (ids ms)
    all_before m [] k = tt
    all_before m (n ∷ ns) k = (str_ltb→Before m.client_id n.client_id k.0, all_before m ns k.1)

Listed→result_of :
    (c : Str) (ms : List Subscriber) → Listed c (ids ms) → (q : ℕ) × (result_of c ms ≡ some q)
unfolding ids result_of
Listed→result_of c [] k = absurd k
Listed→result_of c (m ∷ ms) (inl e) = (m.qos, rw ((str_beq_iff m.client_id c).1 (sym e)) refl)
Listed→result_of c (m ∷ ms) (inr k) = elim (Bool-cases (m.client_id == c)) [
  | inl b ↦ (m.qos, rw b refl)
  | inr b ↦ (let (q, e) = Listed→result_of c ms k in (q, rw b e))
]

result_of→Listed :
    (c : Str) (q : ℕ) (ms : List Subscriber) → result_of c ms ≡ some q → Listed c (ids ms)
unfolding ids result_of
result_of→Listed c q [] e = absurd (none-ne-some e)
result_of→Listed c q (m ∷ ms) e = elim (Bool-cases (m.client_id == c)) [
  | inl b ↦ inl (sym ((str_beq_iff m.client_id c).0 b))
  | inr b ↦ inr (result_of→Listed c q ms (rw b at e))
]

Listed-All :
    (P : Str → Type 0) (ms : List Subscriber)
    → ((c : Str) → Listed c (ids ms) → P c)
    → All (λ m. P m.client_id) ms
unfolding ids
Listed-All P [] h = tt
Listed-All P (m ∷ ms) h = (h m.client_id (inl refl), Listed-All P ms (λ c k. h c (inr k)))

All-Listed :
    (P : Str → Type 0) (c : Str) (ms : List Subscriber)
    → All (λ m. P m.client_id) ms
    → Listed c (ids ms)
    → P c
unfolding ids
All-Listed P c [] h k = absurd k
All-Listed P c (m ∷ ms) h (inl e) = subst P (sym e) h.0
All-Listed P c (m ∷ ms) h (inr k) = All-Listed P c ms h.1 k

length-ids : (ms : List Subscriber) → length (ids ms) ≡ length ms
unfolding ids
length-ids [] = refl
length-ids (m ∷ ms) = omega (arith, length-ids ms)

eligible-AreMembers :
    (o : Option (Str → Bool)) (topic : Str) (filters : Map Str (Map Str ℕ))
    → IsGroup filters
    → AreMembers o topic filters (ids (eligible o topic filters))
eligible-AreMembers o topic filters h = record {
  ascending = ids-Ascending (eligible o topic filters) (eligible-IsSorted o topic filters h);
  listed = λ c. (
    λ k.
        let (q, e) = Listed→result_of c (eligible o topic filters) k in
        let (on, member) = eligible_sound o topic filters h c q e in (on, (q, member)),
    λ (on, (q, member)).
        let (r, e, _) = eligible_complete o topic filters h c q member on in
        result_of→Listed c r (eligible o topic filters) e,
  );
}

-- The turns of a group whose members have ids.
IsRotation→TakeTurns :
    (last : Option Str) (ms : List Subscriber) (sels : List Str)
    → Named ms
    → IsRotation (last_of last) sels ms
    → TakeTurns last (ids ms) sels
IsRotation→TakeTurns last ms sels named (front, back, e, f, inl (g, none_is)) = (
  ids front,
  ids back,
  ap ids e ∙ ids-append front back,
  f ∙ ids-append back front,
  inl (
    ap ids g ∙ (unfold ids in refl),
    λ k. All-Listed (λ c. c ≢ last_of last) (last_of last) ms none_is k refl,
  ),
)
IsRotation→TakeTurns last ms sels named (front, back, e, f, inr (pre, x, g, i)) = (
  ids front,
  ids back,
  ap ids e ∙ ids-append front back,
  f ∙ ids-append back front,
  inr (
    ids pre,
    x.client_id,
    ap ids g ∙ ids-append pre (x ∷ []) ∙ (unfold ids in refl),
    was_last last i,
  ),
)
  where
    whole : ms ≡ pre ++ x ∷ back
    whole = e ∙ ap (λ l. l ++ back) g ∙ append_assoc pre (x ∷ []) back

    has_id : x.client_id ≢ []
    has_id = middle-All (λ m. m.client_id ≢ []) pre x back (subst Named whole named)

    was_last : (l : Option Str) → x.client_id ≡ last_of l → l ≡ some x.client_id
    was_last none j = absurd (has_id j)
    was_last (some c) j = ap some (sym j)

-- As many messages in a row on a topic as a shared group has members that are online and have
-- subscribed to a matching filter go to all of these, one message to each, in the order of their ids,
-- from the one behind the member that was selected last; from the first one if none was, or if it is
-- not among them. (The members have ids, and stay the same meanwhile.)
pub served-TakeTurns :
    (o : Option (Str → Bool)) (topic share : Str) (t : TopicTree) (filters : Map Str (Map Str ℕ))
    → IsShared t
    → lookup share t.shared_subs ≡ some filters
    → ((c : Str) (q : ℕ) → Member topic filters c q → c ≢ [])
    → (members : List Str) × AreMembers o topic filters members
      × TakeTurns (lookup share t.shared_last) members (served (length members) o topic share t)
served-TakeTurns o topic share t filters h e named =
    let are = eligible-AreMembers o topic filters (h.groups share filters e) in
    (ids (eligible o topic filters), are, rw length-ids (go (eligible o topic filters) refl are))
  where
    last : Option Str
    last = lookup share t.shared_last

    go :
        (l : List Subscriber)
        → eligible o topic filters ≡ l
        → AreMembers o topic filters (ids l)
        → TakeTurns last (ids l) (served (length l) o topic share t)
    go [] k are = ([], [], unfold ids in refl, unfold served in refl, inl (refl, λ i. nobody i))
      where
        nobody : Listed (last_of last) (ids []) → ⊥
        nobody i = unfold ids in i
    go (m ∷ ms) k are =
        let sorted = eligible-IsSorted o topic filters (h.groups share filters e) in
        let has_ids : Named (m ∷ ms) =
          Listed-All (λ c. c ≢ []) (m ∷ ms)
            (λ c i. (let (_, (q, member)) = (are.listed c).0 i in named c q member)) in
        let round = turns-IsRotation (last_of last) m ms (rw k at sorted) has_ids in
        IsRotation→TakeTurns last (m ∷ ms) (served (length (m ∷ ms)) o topic share t) has_ids
          (rw (served-turns (length (m ∷ ms)) o topic share t filters m ms h.once e k) round)
