-- ===== src/Broker/QosEngine/Bounds.antt =====
-- The invariant of broker/qos_engine.go: no client has more than `maxInflight` messages in flight,
-- and no message has been sent again more often than it may.
use shark_mqtt.Prelude.{
  ℕ, suc, ◌≤◌, ◌<◌, ◌≡◌, ◌∙◌, refl, sym, Option, none, some, [], ◌∷◌, Str, nat_eq, str_eq, nat_beq,
  arith, Bool-cases, inl, inr, length, none-ne-some,
}
use shark_mqtt.Prelude.Map.{
  Map, lookup, insert, delete, lookup-insert, lookup-delete, length-insert, length-delete-le,
  NodupKeys, insert-NodupKeys, delete-NodupKeys,
}
use shark_mqtt.Broker.QosEngine.{
  InflightMessage, QosEngine, client_inflight, mark_acked, state_acked,
}
use shark_mqtt.Broker.QosEngine.Steps.{
  Decision, wait, give_up, resend, decide, Round, add_decision, retry_table,
}
use shark_mqtt.Broker.QosEngine.Rounds.{lookup-retry_table, after}

-- A client's table, where `max` is 0 for no limit.
pub record IsTable (max : ℕ) (m : Map ℕ InflightMessage) : Type 0 where
  pub nodup : NodupKeys m
  pub bounded : 0 < max → length m ≤ max
  pub retries_bounded :
      (id : ℕ) (msg : InflightMessage) → lookup id m ≡ some msg → msg.retries ≤ msg.max_retries

abbrev pub IsEngine : QosEngine → Type 0
IsEngine q = (c : Str) → IsTable q.max_inflight (client_inflight c q)

pub empty-IsTable : (max : ℕ) → IsTable max []
empty-IsTable max = record {
  nodup = tt;
  bounded = λ h. omega arith;
  retries_bounded = λ id msg e. absurd (unfold lookup in none-ne-some e);
}

pub insert-IsTable :
    (max id : ℕ) (msg : InflightMessage) (m : Map ℕ InflightMessage)
    → IsTable max m
    → msg.retries ≤ msg.max_retries
    → (0 < max → length (insert id msg m) ≤ max)
    → IsTable max (insert id msg m)
insert-IsTable max id msg m h r b = record {
  nodup = insert-NodupKeys id msg m h.nodup;
  bounded = b;
  retries_bounded = λ j other e. elim (Bool-cases (nat_beq id j)) [
    | inl q ↦ ground (arith, lookup-insert id j msg m)
    | inr q ↦ h.retries_bounded j other (ground (arith, lookup-insert id j msg m))
  ];
}

pub delete-IsTable :
    (max id : ℕ) (m : Map ℕ InflightMessage) → IsTable max m → IsTable max (delete id m)
delete-IsTable max id m h = record {
  nodup = delete-NodupKeys id m h.nodup;
  bounded = λ p. omega (arith, length-delete-le id m, h.bounded p);
  retries_bounded = λ j other e. h.retries_bounded j other (ground (arith, lookup-delete id j m));
}

pub mark_acked-IsTable :
    (max id : ℕ) (m : Map ℕ InflightMessage) → IsTable max m → IsTable max (mark_acked id m)
mark_acked-IsTable max id m h = go (lookup id m) refl
  where
    go :
        (o : Option InflightMessage)
        → lookup id m ≡ o
        → IsTable max (
            let r : Map ℕ InflightMessage = elim o [
              | none ↦ m
              | some msg ↦ insert id (record msg { state = state_acked }) m
            ] in
            r)
    go none e = h
    go (some msg) e =
        insert-IsTable max id _ m h (h.retries_bounded id msg e) (λ p.
          ground (arith, h.bounded p, length-insert id (record msg { state = state_acked }) m))

length-retry_table :
    (now interval : ℕ) (m : Map ℕ InflightMessage)
    → length (retry_table now interval m).table ≤ length m
unfolding retry_table
length-retry_table now interval [] = omega arith
length-retry_table now interval ((id, msg) ∷ m) =
    add (decide now interval msg) (retry_table now interval m) (length-retry_table now interval m)
  where
    add :
        (d : Decision) (r : Round)
        → length r.table ≤ length m
        → length (add_decision id msg d r).table ≤ suc (length m)
    add wait r h = omega arith
    add give_up r h = omega arith
    add (resend copy) r h = omega arith

decide_bounded :
    (now interval : ℕ) (msg : InflightMessage) {out : InflightMessage}
    → msg.retries ≤ msg.max_retries
    → after msg (decide now interval msg) ≡ some out
    → out.retries ≤ out.max_retries
unfolding decide
decide_bounded now interval msg h e = ground arith

retry_table-NodupKeys :
    (now interval : ℕ) (m : Map ℕ InflightMessage)
    → NodupKeys m
    → NodupKeys (retry_table now interval m).table
unfolding retry_table
retry_table-NodupKeys now interval [] h = tt
retry_table-NodupKeys now interval ((id, msg) ∷ m) h =
    add (decide now interval msg) (retry_table now interval m)
      (lookup-retry_table id now interval m h.1 ∙ rw h.0) (retry_table-NodupKeys now interval m h.1)
  where
    add :
        (d : Decision) (r : Round)
        → lookup id r.table ≡ none
        → NodupKeys r.table
        → NodupKeys (add_decision id msg d r).table
    add wait r f k = (f, k)
    add give_up r f k = k
    add (resend copy) r f k = (f, k)

pub retry_table-IsTable :
    (max now interval : ℕ) (m : Map ℕ InflightMessage)
    → IsTable max m
    → IsTable max (retry_table now interval m).table
retry_table-IsTable max now interval m h = record {
  nodup = retry_table-NodupKeys now interval m h.nodup;
  bounded = λ p. omega (arith, length-retry_table now interval m, h.bounded p);
  retries_bounded =
      λ id out e. go id (lookup id m) refl (sym (lookup-retry_table id now interval m h.nodup) ∙ e);
}
  where
    go :
        (id : ℕ) (o : Option InflightMessage) {out : InflightMessage}
        → lookup id m ≡ o
        → ◌≡◌ {A = Option InflightMessage}
            (elim o [ none ↦ none | some msg ↦ after msg (decide now interval msg) ])
            (some out)
        → out.retries ≤ out.max_retries
    go id none f e = absurd (none-ne-some e)
    go id (some msg) f e = decide_bounded now interval msg (h.retries_bounded id msg f) e
