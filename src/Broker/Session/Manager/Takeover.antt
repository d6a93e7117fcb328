-- ===== src/Broker/Session/Manager/Takeover.antt =====
-- A connection under a client id that has a session already, in broker/session.go.
use shark_mqtt.Prelude.{
  ℕ, ◌≡◌, ◌∙◌, refl, sym, Bool, true, false, not, ◌&&◌, Option, none, some, List, [], ◌∷◌, Str,
  str_eq, str_beq, if◌then◌else◌, Bool-cases, inl, inr,
}
use mathlib.Core.Path.{subst}
use shark_mqtt.Prelude.Map.{Map, lookup, insert, delete, lookup-insert, lookup-delete}
use shark_mqtt.Broker.Session.Manager.{
  Manager, ManagedSession, Connect, create_session, get_session, resume, new_session, kicked,
  set_close_reason, replaced, connected,
}
use shark_mqtt.Broker.Session.{
  get_inflight, has_inbound_qos2, next_packet_id, find_packet_id, can_send_outbound,
  outbound_queue_len,
}
use shark_mqtt.Broker.Session.Subscriptions.{
  Subscriptions, SubscriptionOptions, Best, match_loop, local_loop, options_of, options_or_plain,
  has_subscription, match_subscriptions, no_match, allows_local_publish,
}

-- What every outcome of `CreateSession` has in common.
pub record IsCreated (client : Str) (c : Connect) (m : Manager)
    (r : Manager × ManagedSession × List ManagedSession) : Type 0 where
  pub stored :
      (other : Str)
      → get_session other r.0 ≡ (if str_beq client other then some r.1 else get_session other m)
  pub no_aliases : r.1.flows.topic_aliases ≡ []
  pub negotiated :
      (r.1.subs.keep_alive ≡ c.keep_alive)
      × (r.1.username ≡ c.username)
      × (r.1.protocol_ver ≡ c.protocol_version)

-- The outcomes without a session, with one that is resumed, and with one that is replaced.
module _ (client : Str) (c : Connect) (is_resuming : Bool) (now : ℕ) (m : Manager) where
  abbrev created : Manager × ManagedSession × List ManagedSession
  created = create_session client c is_resuming now m

  absent_lem :
      lookup client m.sessions ≡ none
      → created ≡ (
        record m { sessions = insert client (new_session client c now) m.sessions },
        new_session client c now,
        [],
      )
  unfolding create_session
  absent_lem e = rw (e, create_session) refl

  resumed_lem :
      (s : ManagedSession)
      → lookup client m.sessions ≡ some s
      → not c.clean_session && is_resuming ≡ true
      → created
        ≡ (record m { sessions = insert client (resume c now s) m.sessions }, resume c now s, [])
  unfolding create_session
  resumed_lem s e k = rw (e, create_session) (rw k refl)

  replaced_lem :
      (s : ManagedSession)
      → lookup client m.sessions ≡ some s
      → not c.clean_session && is_resuming ≡ false
      → created ≡ (
        record m { sessions = insert client (new_session client c now) (delete client m.sessions) },
        new_session client c now,
        kicked m.has_kick_callback s,
      )
  unfolding create_session
  replaced_lem s e k = rw (e, create_session) (rw k refl)

  new-IsCreated :
      (sessions : Map Str ManagedSession) (ks : List ManagedSession)
      → ((other : Str)
          → str_beq client other ≡ false
          → lookup other sessions ≡ lookup other m.sessions)
      → IsCreated client c m (
        record m { sessions = insert client (new_session client c now) sessions },
        new_session client c now,
        ks,
      )
  unfolding get_session new_session
  new-IsCreated sessions ks h = record {
    stored = λ other. elim (Bool-cases (str_beq client other)) [
      | inl b ↦ lookup-insert client other (new_session client c now) sessions ∙ rw b refl
      | inr b ↦ lookup-insert client other (new_session client c now) sessions ∙ rw b (h other b)
    ];
    no_aliases = refl;
    negotiated = (refl, refl, refl);
  }

  resume-IsCreated :
      (s : ManagedSession)
      → IsCreated client c m
          (record m { sessions = insert client (resume c now s) m.sessions }, resume c now s, [])
  unfolding get_session resume
  resume-IsCreated s = record {
    stored = λ other. lookup-insert client other (resume c now s) m.sessions;
    no_aliases = refl;
    negotiated = (refl, refl, refl);
  }

  create_session-IsCreated : IsCreated client c m created
  create_session-IsCreated = go (lookup client m.sessions) refl
    where
      go : (o : Option ManagedSession) → lookup client m.sessions ≡ o → IsCreated client c m created
      go none e =
          subst (IsCreated client c m) (sym (absent_lem e))
            (new-IsCreated m.sessions [] (λ other b. refl))
      go (some s) e = elim (Bool-cases (not c.clean_session && is_resuming)) [
        | inl k ↦ subst (IsCreated client c m) (sym (resumed_lem s e k)) (resume-IsCreated s)
        | inr k ↦ subst (IsCreated client c m) (sym (replaced_lem s e k)) (
            new-IsCreated (delete client m.sessions) (kicked m.has_kick_callback s)
              (λ other b. lookup-delete client other m.sessions ∙ rw b refl))
      ]

-- The loops of a session's matching read its subscriptions and options, and nothing else of it.
match_loop_same :
    (sys : Bool) (topic : Str) (s s' : Subscriptions) (m : Map Str ℕ) (b : Best)
    → s'.sub_options ≡ s.sub_options
    → match_loop sys topic s' m b ≡ match_loop sys topic s m b
unfolding match_loop options_of
match_loop_same sys topic s s' [] b e = refl
match_loop_same sys topic s s' ((pattern, qos) ∷ m) b e =
    rw e (match_loop_same sys topic s s' m _ e)

local_loop_same :
    (topic : Str) (s s' : Subscriptions) (m : Map Str ℕ) (b : Bool)
    → s'.sub_options ≡ s.sub_options
    → local_loop topic s' m b ≡ local_loop topic s m b
unfolding local_loop
local_loop_same topic s s' [] b e = refl
local_loop_same topic s s' ((pattern, qos) ∷ m) b e =
    rw (e, local_loop_same topic s s' m b e, local_loop_same topic s s' m true e) refl

-- The same answers to what is published.
abbrev pub SameAnswers : Subscriptions → Subscriptions → Type 0
SameAnswers s s' =
    (topic : Str) (sys : Bool)
    → (match_subscriptions topic sys s' ≡ match_subscriptions topic sys s)
      × (allows_local_publish topic s' ≡ allows_local_publish topic s)

-- A session that was made: it has no subscription and matches nothing, has no message in flight or
-- staged, its first packet id is 1, and it can be sent to.
pub record IsFresh (s : ManagedSession) : Type 0 where
  pub unsubscribed : (topic : Str) → has_subscription topic s.subs ≡ false
  pub unmatched :
      (topic : Str) (sys : Bool) → (match_subscriptions topic sys s.subs).matched ≡ false
  pub none_in_flight : (id : ℕ) → get_inflight id s.flows ≡ none
  pub none_staged : (id : ℕ) → has_inbound_qos2 id s.flows ≡ false
  pub first_id : (next_packet_id s.flows).1 ≡ 1
  pub has_room : (can_send_outbound s.flows ≡ true) × (outbound_queue_len s.flows ≡ 0)
  pub in_service : s.state ≡ connected

-- A session `s` that goes on as `s'`.
pub record IsResumed (s s' : ManagedSession) : Type 0 where
  pub flows : s'.flows ≡ record s.flows { topic_aliases = [] }
  pub next_id : (next_packet_id s'.flows).1 ≡ (next_packet_id s.flows).1
  pub subscriptions : s'.subs.subscriptions ≡ s.subs.subscriptions
  pub options : s'.subs.sub_options ≡ some (options_or_plain s.subs s.subs.sub_options)
  pub answers :
      (m : Map Str SubscriptionOptions) → s.subs.sub_options ≡ some m → SameAnswers s.subs s'.subs

abbrev pub Outcome :
    Manager → Manager × ManagedSession × List ManagedSession → Option ManagedSession → Bool → Type 0
Outcome m r none resumes = IsFresh r.1 × (r.2 ≡ [])
Outcome m r (some s) true = IsResumed s r.1 × (r.2 ≡ [])
Outcome m r (some s) false =
    IsFresh r.1 × (r.2 ≡ (if m.has_kick_callback then set_close_reason replaced s ∷ [] else []))

resume-IsResumed : (c : Connect) (now : ℕ) (s : ManagedSession) → IsResumed s (resume c now s)
unfolding resume next_packet_id match_subscriptions allows_local_publish
resume-IsResumed c now s = record {
  flows = refl;
  next_id = refl;
  subscriptions = refl;
  options = refl;
  answers = λ m e topic sys.
      let after = (resume c now s).subs in
      let same : after.sub_options ≡ s.subs.sub_options = rw e refl in
      (
        rw (match_loop_same sys topic s.subs after s.subs.subscriptions no_match same) refl,
        local_loop_same topic s.subs after s.subs.subscriptions false same,
      );
}

new_session-IsFresh : (client : Str) (c : Connect) (now : ℕ) → IsFresh (new_session client c now)
unfolding new_session has_subscription match_subscriptions match_loop get_inflight has_inbound_qos2
    next_packet_id find_packet_id can_send_outbound outbound_queue_len lookup
new_session-IsFresh client c now = record {
  unsubscribed = λ topic. refl;
  unmatched = λ topic sys. refl;
  none_in_flight = λ id. refl;
  none_staged = λ id. refl;
  first_id = refl;
  has_room = (refl, refl);
  in_service = refl;
}

kicked_lem :
    (b : Bool) (s : ManagedSession)
    → kicked b s ≡ (if b then set_close_reason replaced s ∷ [] else [])
kicked_lem true s = refl
kicked_lem false s = refl

-- The session that a connection gets is the one that the manager then has for its client, and the
-- other clients' sessions stay; its topic aliases are empty, and its keep-alive, user name and
-- protocol version are the connection's. A client without a session gets a fresh one: no
-- subscription, nothing matched, nothing in flight or staged, the packet identifiers from 1 on.
-- Resuming without a clean session keeps the client's in-flight messages, staged publishes, packet
-- identifiers, outbound window and buffer, subscriptions and their options (made plain where there are
-- none), so that it answers every topic as before if it had options, and kicks no one. Else the client
-- gets a fresh session, and the one that it replaces is kicked (if a callback is set), as replaced.
pub create_session_lem :
    (client : Str) (c : Connect) (is_resuming : Bool) (now : ℕ) (m : Manager)
    → let r = create_session client c is_resuming now m in
      IsCreated client c m r
      × Outcome m r (lookup client m.sessions) (not c.clean_session && is_resuming)
create_session_lem client c is_resuming now m =
    (create_session-IsCreated client c is_resuming now m, go (lookup client m.sessions) refl)
  where
    r : Manager × ManagedSession × List ManagedSession
    r = create_session client c is_resuming now m

    resumes : Bool
    resumes = not c.clean_session && is_resuming

    found :
        (s : ManagedSession)
        → lookup client m.sessions ≡ some s
        → (b : Bool) → resumes ≡ b
        → Outcome m r (some s) b
    found s e true k =
        let to = resumed_lem client c is_resuming now m s e k in
        subst (λ x. Outcome m x (some s) true) (sym to) (resume-IsResumed c now s, refl)
    found s e false k =
        let to = replaced_lem client c is_resuming now m s e k in
        subst (λ x. Outcome m x (some s) false) (sym to)
          (new_session-IsFresh client c now, kicked_lem m.has_kick_callback s)

    go : (o : Option ManagedSession) → lookup client m.sessions ≡ o → Outcome m r o resumes
    go none e =
        subst (λ x. Outcome m x none resumes) (sym (absent_lem client c is_resuming now m e))
          (new_session-IsFresh client c now, refl)
    go (some s) e = found s e resumes refl
