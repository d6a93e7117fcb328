-- ===== src/Broker/TopicTree/Shared/Choice.antt =====
-- The loop of `matchShared` over the groups, in broker/topic_tree.go: each group's step concerns
-- that group alone.
use shark_mqtt.Prelude.{
  ℕ, ◌≡◌, ◌∙◌, refl, sym, ap, Bool, false, Option, none, some, List, [], ◌∷◌, ◌++◌, Str, str_eq,
  length, str_beq, str_beq_iff, if◌then◌else◌, arith, Bool-cases, none-ne-some, some-eq-some, inl,
  inr, ◌==◌, beq_refl, append_assoc, nat_eq,
}
use mathlib.Core.Path.{subst}
use shark_mqtt.Prelude.Map.{Map, lookup, insert, lookup-insert, NodupKeys}
use shark_mqtt.Broker.TopicTree.Found.{Subscriber}
use shark_mqtt.Broker.TopicTree.Results.{result_of}
use shark_mqtt.Broker.TopicTree.Shared.{
  SharedSubscriber, eligible, select, select_in, qos_of, behind, first_of, last_of, and_result,
  match_groups,
}
use shark_mqtt.Broker.TopicTree.Shared.Turns.{behind_inv, select_first}

-- The results that name a group.
unfoldable pub results_for : Str → List SharedSubscriber → List SharedSubscriber
results_for share [] = []
results_for share (r ∷ rs) =
    let rest = results_for share rs in if r.share_name == share then r ∷ rest else rest

abbrev pub chosen : Option SharedSubscriber → List SharedSubscriber
chosen none = []
chosen (some r) = r ∷ []

-- The member that is selected is one of the members, at its QoS.
result_of_middle :
    (pre : List Subscriber) (x : Subscriber) (post : List Subscriber)
    → result_of x.client_id (pre ++ x ∷ post) ≡ some (qos_of x.client_id (pre ++ x ∷ post))
unfolding result_of qos_of
result_of_middle [] x post = rw (beq_refl x.client_id) refl
result_of_middle (p ∷ pre) x post = ground (arith, result_of_middle pre x post)

result_of_next :
    (pre : List Subscriber) (x m : Subscriber) (post ms : List Subscriber)
    → m ∷ ms ≡ pre ++ x ∷ post
    → let c = (first_of m post).client_id in result_of c (m ∷ ms) ≡ some (qos_of c (m ∷ ms))
result_of_next pre x m [] ms e = result_of_middle [] m ms
result_of_next pre x m (n ∷ post) ms e =
    rw (e ∙ sym (append_assoc pre (x ∷ []) (n ∷ post))) (result_of_middle (pre ++ x ∷ []) n post)

pub result_of-select :
    (last : Str) (m : Subscriber) (ms : List Subscriber)
    → let c = select last m ms in result_of c (m ∷ ms) ≡ some (qos_of c (m ∷ ms))
unfolding select
result_of-select last m ms = go (behind last (m ∷ ms)) refl
  where
    go :
        (o : Option (List Subscriber))
        → behind last (m ∷ ms) ≡ o
        → let c = select last m ms in result_of c (m ∷ ms) ≡ some (qos_of c (m ∷ ms))
    go none e = rw (select_first last m ms e) (result_of_middle [] m ms)
    go (some post) e =
        let (pre, x, f, _) = behind_inv last (m ∷ ms) post e in
        elim (Bool-cases (length last == 0)) [
          | inl b ↦ rw b (result_of_middle [] m ms)
          | inr b ↦ rw b (rw e (result_of_next pre x m post ms f))
        ]

pub lookup_new : (k s : Str) (m : Map Str Str) → lookup k (insert k s m) ≡ some s
lookup_new k s m = lookup-insert k k s m ∙ rw (beq_refl k) refl

module _ (share : Str) (ms : List Subscriber) (last : Map Str Str) where
  -- What one group's step does to the others and to itself.
  other_group :
      (group : Str) (rs : List SharedSubscriber)
      → str_beq group share ≡ false
      → (results_for share (and_result (select_in group ms last).0 rs) ≡ results_for share rs)
        × (lookup share (select_in group ms last).1 ≡ lookup share last)
  unfolding results_for
  other_group group rs n = go ms
    where
      go :
          (l : List Subscriber)
          → (results_for share (and_result (select_in group l last).0 rs) ≡ results_for share rs)
            × (lookup share (select_in group l last).1 ≡ lookup share last)
      go [] = (refl, refl)
      go (m ∷ l) = (rw n refl, rw lookup-insert (rw n refl))

  own_result :
      (rs : List SharedSubscriber)
      → results_for share rs ≡ []
      → results_for share (and_result (select_in share ms last).0 rs)
        ≡ chosen (select_in share ms last).0
  unfolding results_for
  own_result rs e = go ms
    where
      go :
          (l : List Subscriber)
          → results_for share (and_result (select_in share l last).0 rs)
            ≡ chosen (select_in share l last).0
      go [] = e
      go (m ∷ l) = rw (beq_refl share) (rw e refl)

  -- Only the group's own entry of the map counts.
  same_choice :
      (last2 : Map Str Str)
      → lookup share last2 ≡ lookup share last
      → ((select_in share ms last2).0 ≡ (select_in share ms last).0)
        × (lookup share (select_in share ms last2).1 ≡ lookup share (select_in share ms last).1)
  same_choice last2 e = go ms
    where
      go :
          (l : List Subscriber)
          → ((select_in share l last2).0 ≡ (select_in share l last).0)
            × (lookup share (select_in share l last2).1 ≡ lookup share (select_in share l last).1)
      go [] = (refl, e)
      go (m ∷ l) =
          let sel2 = select (last_of (lookup share last2)) m l in
          let sel = select (last_of (lookup share last)) m l in
          let same : sel2 ≡ sel = rw e refl in
          (rw e refl, lookup_new share sel2 last2 ∙ ap some same ∙ sym (lookup_new share sel last))

module _ (o : Option (Str → Bool)) (topic share : Str) where
  pub no_group :
      (groups : Map Str (Map Str (Map Str ℕ))) (last : Map Str Str)
      → lookup share groups ≡ none
      → (results_for share (match_groups o topic groups last).0 ≡ [])
        × (lookup share (match_groups o topic groups last).1 ≡ lookup share last)
  unfolding match_groups lookup results_for
  no_group [] last e = (refl, refl)
  no_group ((group, filters) ∷ groups) last e =
      let ms = eligible o topic filters in
      let after = (select_in group ms last).1 in
      let other : str_beq group share ≡ false = ground (arith, e) in
      let (rest, kept) = no_group groups after (rw other at e) in
      let (r, l) = other_group share ms last group (match_groups o topic groups after).0 other in
      (r ∙ rest, kept ∙ l)

  pub its_group :
      (groups : Map Str (Map Str (Map Str ℕ))) (last : Map Str Str) (filters : Map Str (Map Str ℕ))
      → NodupKeys groups
      → lookup share groups ≡ some filters
      → let ms = eligible o topic filters in
        (results_for share (match_groups o topic groups last).0
          ≡ chosen (select_in share ms last).0)
        × (lookup share (match_groups o topic groups last).1
            ≡ lookup share (select_in share ms last).1)
  unfolding match_groups lookup
  its_group [] last filters h e = absurd (none-ne-some e)
  its_group ((group, fs) ∷ groups) last filters h e = elim (Bool-cases (group == share)) [
    | inl b ↦
        let same : group ≡ share = (str_beq_iff group share).0 b in
        let found : fs ≡ filters = some-eq-some (rw b at e) in
        let ms = eligible o topic fs in
        let (none_else, kept) = no_group groups (select_in group ms last).1 (rw same at h.0) in
        subst
          (λ l.
            (results_for share (
                and_result (select_in group ms last).0
                  (match_groups o topic groups (select_in group ms last).1).0)
              ≡ chosen (select_in share (eligible o topic l) last).0)
            × (lookup share (match_groups o topic groups (select_in group ms last).1).1
                ≡ lookup share (select_in share (eligible o topic l) last).1))
          found
          (rw same (own_result share ms last _ (rw same at none_else)), rw same (rw same at kept))
    | inr b ↦
        let ms = eligible o topic fs in
        let after = (select_in group ms last).1 in
        let (r, l) = other_group share ms last group (match_groups o topic groups after).0 b in
        let (x, y) = its_group groups after filters h.1 (rw b at e) in
        let (z, w) = same_choice share (eligible o topic filters) last after l in
        (r ∙ x ∙ ap chosen z, y ∙ w)
  ]
