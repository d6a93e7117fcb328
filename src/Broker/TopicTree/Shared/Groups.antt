-- ===== src/Broker/TopicTree/Shared/Groups.antt =====
-- The members of a shared group that get a message, in broker/topic_tree.go.
use shark_mqtt.Prelude.{
  ℕ, ◌≤◌, ◌≡◌, ◌≢◌, ◌⊎◌, ◌∙◌, refl, sym, Bool, true, false, Option, none, some, [], ◌∷◌, Str,
  str_eq, str_beq_iff, if◌then◌else◌, arith, Bool-cases, none-ne-some, some-eq-some, inl, inr, ◌==◌,
  beq_refl,
}
use shark_mqtt.Prelude.Map.{Map, lookup, NodupKeys}
use shark_mqtt.Protocol.Topic.{match_sys_protected}
use shark_mqtt.Broker.TopicTree.Found.{Found, add_subscribers, nothing_found}
use shark_mqtt.Broker.TopicTree.Adds.{Adds, Adds-cong, Adds-none, Adds-seq, add_subscribers-Adds}
use shark_mqtt.Broker.TopicTree.Results.{
  result_of, InSync, InSync-Once, result_of-InSync, add_subscribers-InSync,
}
use shark_mqtt.Broker.TopicTree.Shared.{collect_members, eligible, sort_members}
use shark_mqtt.Broker.TopicTree.Shared.Order.{
  IsSorted, is_online, result_of-sort_members, sort_members-IsSorted, keep_online-IsSorted,
  result_of-keep_online,
}

-- The filters of a group: each once, each with clients, each client once.
pub record IsGroup (filters : Map Str (Map Str ℕ)) : Type 0 where
  pub once : NodupKeys filters
  pub used : filters ≢ []
  pub clients :
      (filter : Str) (m : Map Str ℕ) → lookup filter filters ≡ some m → NodupKeys m × (m ≢ [])

-- The client has subscribed at `q` to a filter of the group that matches the topic.
pub record Member (topic : Str) (filters : Map Str (Map Str ℕ)) (c : Str) (q : ℕ) : Type 0 where
  pub filter : Str
  pub clients : Map Str ℕ
  pub held : lookup filter filters ≡ some clients
  pub fits : match_sys_protected filter topic ≡ true
  pub granted : lookup c clients ≡ some q

pub lookup_empty : {V : Type 0} (key : Str) (value : V) → lookup {V = V} key [] ≡ some value → ⊥
unfolding lookup
lookup_empty key value e = none-ne-some e

abbrev AreNodup : Map Str (Map Str ℕ) → Type 0
AreNodup filters = (filter : Str) (m : Map Str ℕ) → lookup filter filters ≡ some m → NodupKeys m

module _ (topic filter : Str) (m : Map Str ℕ) (filters : Map Str (Map Str ℕ)) (c : Str)
    (q : ℕ) where
  Member-cons :
      lookup filter filters ≡ none
      → ((match_sys_protected filter topic ≡ true) × (lookup c m ≡ some q))
        ⊎ Member topic filters c q
      → Member topic ((filter, m) ∷ filters) c q
  unfolding lookup
  Member-cons n (inl (f, g)) = record {
    filter = filter;
    clients = m;
    held = rw (beq_refl filter) refl;
    fits = f;
    granted = g;
  }
  Member-cons n (inr r) = record {
    filter = r.filter;
    clients = r.clients;
    held = ground (arith, r.held, n, str_beq_iff filter r.filter);
    fits = r.fits;
    granted = r.granted;
  }

  Member-cons_inv :
      Member topic ((filter, m) ∷ filters) c q
      → ((match_sys_protected filter topic ≡ true) × (lookup c m ≡ some q))
        ⊎ Member topic filters c q
  unfolding lookup
  Member-cons_inv r = elim (Bool-cases (filter == r.filter)) [
    | inl b ↦ inl (
      rw ((str_beq_iff filter r.filter).0 b) r.fits,
      rw (some-eq-some (rw b at r.held)) r.granted,
    )
    | inr b ↦ inr (record {
      filter = r.filter;
      clients = r.clients;
      held = rw b at r.held;
      fits = r.fits;
      granted = r.granted;
    })
  ]

filter-Adds :
    (b : Bool) (m : Map Str ℕ) (f : Found)
    → NodupKeys m
    → Adds (λ c q. (b ≡ true) × (lookup c m ≡ some q)) f (if b then add_subscribers m f else f)
filter-Adds true m f h = Adds-cong (add_subscribers-Adds m f h) (λ c q e. (refl, e)) (λ c q e. e.1)
filter-Adds false m f h =
    Adds-cong (Adds-none f) (λ c q e. absurd e) (λ c q e. absurd (ground (arith, e.0)))

rest-AreNodup :
    (filter : Str) (m : Map Str ℕ) (filters : Map Str (Map Str ℕ))
    → lookup filter filters ≡ none
    → AreNodup ((filter, m) ∷ filters)
    → (NodupKeys m) × AreNodup filters
unfolding lookup
rest-AreNodup filter m filters n k = (
  k filter m (rw (beq_refl filter) refl),
  λ g x e. k g x (ground (arith, e, n, str_beq_iff filter g)),
)

pub collect_members-Adds :
    (topic : Str) (filters : Map Str (Map Str ℕ)) (f : Found)
    → NodupKeys filters
    → AreNodup filters
    → Adds (Member topic filters) f (collect_members topic filters f)
unfolding collect_members
collect_members-Adds topic [] f h k =
    Adds-cong (Adds-none f) (λ c q e. absurd e) (λ c q e. not_in_none c q e)
  where
    not_in_none : (c : Str) (q : ℕ) → Member topic [] c q → ⊥
    not_in_none c q e = lookup_empty e.filter e.clients e.held
collect_members-Adds topic ((filter, m) ∷ filters) f h k =
    let (here, ahead) = rest-AreNodup filter m filters h.0 k in
    let b = match_sys_protected filter topic in
    Adds-cong
      (Adds-seq (filter-Adds b m f here)
        (collect_members-Adds topic filters (if b then add_subscribers m f else f) h.1 ahead))
      (λ c q. Member-cons topic filter m filters c q h.0)
      (λ c q. Member-cons_inv topic filter m filters c q)

pub collect_members-InSync :
    (topic : Str) (filters : Map Str (Map Str ℕ)) (f : Found)
    → InSync f
    → InSync (collect_members topic filters f)
unfolding collect_members
collect_members-InSync topic [] f h = h
collect_members-InSync topic ((filter, m) ∷ filters) f h =
    elim (Bool-cases (match_sys_protected filter topic)) [
      | inl e ↦ rw e (
          collect_members-InSync topic filters (add_subscribers m f) (add_subscribers-InSync m f h))
      | inr e ↦ rw e (collect_members-InSync topic filters f h)
    ]

-- What a group's members are: each of the clients that are online and have a matching filter, at
-- the highest QoS, in the order of their ids.
module _ (o : Option (Str → Bool)) (topic : Str) (filters : Map Str (Map Str ℕ))
    (h : IsGroup filters) where
  collected : Found
  collected = collect_members topic filters nothing_found

  collected-InSync : InSync collected
  unfolding collected
  collected-InSync =
      collect_members-InSync topic filters nothing_found (record { same = refl; nodup = tt })

  pub eligible-IsSorted : IsSorted (eligible o topic filters)
  unfolding eligible collected
  eligible-IsSorted =
      keep_online-IsSorted o _
        (sort_members-IsSorted collected.results (InSync-Once collected collected-InSync))

  result_of-eligible :
      (c : Str)
      → result_of c (eligible o topic filters)
        ≡ (if is_online o c then lookup c collected.visited else none)
  unfolding eligible collected
  result_of-eligible c =
      result_of-keep_online c o (sort_members collected.results)
      ∙ rw (result_of-sort_members c collected.results (InSync-Once collected collected-InSync))
          (rw (result_of-InSync c collected collected-InSync) refl)

  collected-Adds : Adds (Member topic filters) nothing_found collected
  unfolding collected
  collected-Adds =
      collect_members-Adds topic filters nothing_found h.once (λ f m e. (h.clients f m e).0)

  pub eligible_complete :
      (c : Str) (q : ℕ)
      → Member topic filters c q
      → is_online o c ≡ true
      → (r : ℕ) × (result_of c (eligible o topic filters) ≡ some r) × (q ≤ r)
  eligible_complete c q m on =
      let (r, e, l) = collected-Adds.complete c q m in (r, result_of-eligible c ∙ rw on e, l)

  pub eligible_sound :
      (c : Str) (q : ℕ)
      → result_of c (eligible o topic filters) ≡ some q
      → (is_online o c ≡ true) × Member topic filters c q
  eligible_sound c q e = elim (Bool-cases (is_online o c)) [
    | inl on ↦ (
      on,
      elim (collected-Adds.sound c q (rw on at (sym (result_of-eligible c) ∙ e))) [
        | inl i ↦ absurd (lookup_empty c q i)
        | inr m ↦ m
      ],
    )
    | inr off ↦ absurd (none-ne-some (rw off at (sym (result_of-eligible c) ∙ e)))
  ]
