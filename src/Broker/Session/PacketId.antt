-- ===== src/Broker/Session/PacketId.antt =====
-- `NextPacketID` of broker/session.go finds a free packet id whenever there is one.
use shark_mqtt.Prelude.{
  ℕ, zero, suc, ◌+◌, ◌-◌, ◌%◌, ◌≤◌, ◌<◌, ◌≡◌, ◌≢◌, refl, sym, none, nat_eq, arith, Option-cases,
  none-ne-some, inl, inr, ◌∙◌, ap,
}
use shark_mqtt.Prelude.Map.{Map, lookup}
use shark_mqtt.Broker.Session.{
  InflightMsg, Session, next_seq, find_packet_id, max_attempts, next_packet_id,
}

-- A valid packet id, and a valid value of the sequence.
abbrev pub IsPacketId : ℕ → Type 0
IsPacketId id = (1 ≤ id) × (id ≤ 65535)

next_seq-IsPacketId : (seq : ℕ) → IsPacketId (next_seq seq)
next_seq-IsPacketId seq = ground arith

-- How many increments lead from one id to another, around the end.
abbrev distance : ℕ → ℕ → ℕ
distance seq id = (id + 65535 - seq) % 65535

distance-next_seq :
    (seq id : ℕ)
    → IsPacketId seq
    → IsPacketId id
    → distance seq id ≢ 0
    → distance (next_seq seq) id + 1 ≡ distance seq id
distance-next_seq seq id h k n = ground arith

distance_zero : (seq id : ℕ) → IsPacketId seq → IsPacketId id → distance seq id ≡ 0 → seq ≡ id
distance_zero seq id h k n = omega arith

find_packet_id_free :
    (attempts : ℕ) (m : Map ℕ InflightMsg) (seq id : ℕ)
    → IsPacketId seq
    → IsPacketId id
    → lookup id m ≡ none
    → distance seq id < attempts
    → (lookup (find_packet_id attempts m seq).0 m ≡ none)
      × IsPacketId (find_packet_id attempts m seq).0
      × IsPacketId (find_packet_id attempts m seq).1
unfolding find_packet_id
find_packet_id_free zero m seq id h k f d = elim d [ ]
find_packet_id_free (suc attempts) m seq id h k f d = elim (Option-cases (lookup seq m)) [
  | inl e ↦ rw e (e, h, next_seq-IsPacketId seq)
  | inr (msg, e) ↦
      let other : distance seq id ≢ 0 =
        λ z. none-ne-some (sym f ∙ ap (λ i. lookup i m) (sym (distance_zero seq id h k z)) ∙ e) in
      rw e (
        find_packet_id_free attempts m (next_seq seq) id (next_seq-IsPacketId seq) k f
          (omega (arith, distance-next_seq seq id h k other)))
]

distance-lt : (seq id : ℕ) → distance seq id < 65535
distance-lt seq id = omega arith

-- As long as some packet id from 1 to 65535 is not in flight and the sequence is in that range, the
-- id that is handed out is from 1 to 65535 and not in flight, and the sequence stays in that range.
-- The table is not changed.
pub next_packet_id_free :
    (s : Session) (id : ℕ)
    → IsPacketId s.packet_id_seq
    → IsPacketId id
    → lookup id s.inflight ≡ none
    → (lookup (next_packet_id s).1 s.inflight ≡ none)
      × IsPacketId (next_packet_id s).1
      × IsPacketId (next_packet_id s).0.packet_id_seq
      × ((next_packet_id s).0.inflight ≡ s.inflight)
unfolding next_packet_id
next_packet_id_free s id h k f =
    let (free, valid, next) =
      find_packet_id_free max_attempts s.inflight s.packet_id_seq id h k f
        (distance-lt s.packet_id_seq id) in
    (free, valid, next, refl)
