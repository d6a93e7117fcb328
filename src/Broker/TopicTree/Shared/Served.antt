-- ===== src/Broker/TopicTree/Shared/Served.antt =====
-- Whom `matchShared` of broker/topic_tree.go selects in each group, and what it remembers.
use shark_mqtt.Prelude.{
  ℕ, ◌≤◌, ◌≡◌, ◌≢◌, ◌∙◌, refl, sym, Bool, true, false, Option, none, some, List, [], ◌∷◌, Str,
  str_eq, arith, none-ne-some, some-eq-some, nat_eq,
}
use shark_mqtt.Prelude.Map.{Map, lookup, NodupKeys}
use shark_mqtt.Broker.TopicTree.{TopicTree}
use shark_mqtt.Broker.TopicTree.Found.{Subscriber}
use shark_mqtt.Broker.TopicTree.Results.{result_of}
use shark_mqtt.Broker.TopicTree.Shared.{
  SharedSubscriber, eligible, select, select_in, qos_of, last_of, match_shared,
}
use shark_mqtt.Broker.TopicTree.Shared.Choice.{
  results_for, chosen, result_of-select, no_group, its_group,
}
use shark_mqtt.Broker.TopicTree.Shared.Order.{is_online}
use shark_mqtt.Broker.TopicTree.Shared.Groups.{IsGroup, Member, eligible_sound, eligible_complete}

no_result : (c : Str) (q : ℕ) → result_of c [] ≡ some q → ⊥
unfolding result_of
no_result c q e = none-ne-some e

-- What the code keeps in `sharedSubs`: each group once, and each as `IsGroup` says.
pub record IsShared (t : TopicTree) : Type 0 where
  pub once : NodupKeys t.shared_subs
  pub groups :
      (share : Str) (filters : Map Str (Map Str ℕ))
      → lookup share t.shared_subs ≡ some filters
      → IsGroup filters
  pub remembered :
      (share c : Str) → lookup share t.shared_last ≡ some c → lookup share t.shared_subs ≢ none

-- Nobody for a group without members, else one of them, at the highest QoS of its filters.
abbrev pub IsServed :
    Option (Str → Bool) → Str → Str → Map Str (Map Str ℕ) → List SharedSubscriber → Type 0
IsServed o topic share filters [] =
    (c : Str) (q : ℕ) → Member topic filters c q → is_online o c ≡ false
IsServed o topic share filters (r ∷ []) =
    (r.share_name ≡ share)
    × (is_online o r.client_id ≡ true)
    × Member topic filters r.client_id r.qos
    × ((q : ℕ) → Member topic filters r.client_id q → q ≤ r.qos)
IsServed o topic share filters (_ ∷ _ ∷ _) = ⊥

module _ (o : Option (Str → Bool)) (topic share : Str) (filters : Map Str (Map Str ℕ))
    (h : IsGroup filters) where
  chosen-IsServed :
      (last : Map Str Str) (ms : List Subscriber)
      → eligible o topic filters ≡ ms
      → IsServed o topic share filters (chosen (select_in share ms last).0)
  chosen-IsServed last [] e = λ c q m. nobody c q m (is_online o c) refl
    where
      nobody :
          (c : Str) (q : ℕ) → Member topic filters c q → (b : Bool) → is_online o c ≡ b → b ≡ false
      nobody c q m false on = refl
      nobody c q m true on =
          let (r, found, _) = eligible_complete o topic filters h c q m on in
          absurd (no_result c r (rw e at found))
  chosen-IsServed last (m ∷ ms) e =
      let sel = select (last_of (lookup share last)) m ms in
      let found : result_of sel (eligible o topic filters) ≡ some (qos_of sel (m ∷ ms)) =
        rw e (result_of-select (last_of (lookup share last)) m ms) in
      let (on, member) = eligible_sound o topic filters h sel (qos_of sel (m ∷ ms)) found in
      (refl, on, member, λ q k. highest sel q (qos_of sel (m ∷ ms)) found k on)
    where
      highest :
          (c : Str) (q r : ℕ)
          → result_of c (eligible o topic filters) ≡ some r
          → Member topic filters c q
          → is_online o c ≡ true
          → q ≤ r
      highest c q r found k on =
          let (s, other, l) = eligible_complete o topic filters h c q k on in
          let same : s ≡ r = some-eq-some (sym other ∙ found) in omega (arith, same, l)

-- `MatchShared` and `MatchSharedOnline` return, for each group, nobody if no client of it that is
-- online has a filter that matches the topic, else exactly one such client, at the highest QoS of
-- its matching filters; and nothing for a name that is no group's.
pub match_shared-IsServed :
    (o : Option (Str → Bool)) (topic share : Str) (t : TopicTree)
    → IsShared t
    → (lookup share t.shared_subs ≡ none → results_for share (match_shared o topic t).0 ≡ [])
      × ((filters : Map Str (Map Str ℕ))
          → lookup share t.shared_subs ≡ some filters
          → IsServed o topic share filters (results_for share (match_shared o topic t).0))
unfolding match_shared
match_shared-IsServed o topic share t h = (
  λ e. (no_group o topic share t.shared_subs t.shared_last e).0,
  λ filters e. rw (its_group o topic share t.shared_subs t.shared_last filters h.once e).0 (
      chosen-IsServed o topic share filters (h.groups share filters e) t.shared_last
        (eligible o topic filters) refl),
)
