-- ===== src/Protocol/Codec/Flags.antt =====
-- The check of the reserved bits in protocol/codec.go against the byte that is sent.
use shark_mqtt.Prelude.{
  ℕ, ◌+◌, ◌*◌, ◌/◌, ◌%◌, ◌<◌, ◌≡◌, ap, ◌∙◌, Bool, true, false, if◌then◌else◌, not, ◌||◌, ◌==◌,
  nat_eq, arith,
}
use shark_mqtt.Protocol.Codec.{FixedHeader, first_byte, validate_fixed_header_flags}
use shark_mqtt.Protocol.Codec.Header.{nibble, first_byte_lem}

-- The low nibble that section 2.1.3 of the specification prescribes for a packet type; with
-- PUBREL, SUBSCRIBE and UNSUBSCRIBE the DUP bit is let through.
unfoldable pub nibble_ok : ℕ → ℕ → Bool
nibble_ok t n =
    if t == 3
    then not (n / 2 % 4 == 3)
    else if t == 6 || t == 8 || t == 10
    then n == 2 || n == 10
    else n == 0

flags_nibble :
    (t q : ℕ) (dup retain : Bool)
    → q < 4
    → (if t == 3
        then not (q == 3)
        else if t == 6 || t == 8 || t == 10
        then not (not (q == 1) || retain)
        else not (dup || not (q == 0) || retain))
      ≡ nibble_ok t (nibble dup retain q)
unfolding nibble_ok
flags_nibble t q true true hq = ground arith
flags_nibble t q true false hq = ground arith
flags_nibble t q false true hq = ground arith
flags_nibble t q false false hq = ground arith

-- The flags of a header pass exactly if the low nibble of its first byte on the wire is allowed for
-- its packet type, for a packet type of four bits and a QoS of two.
pub validate_fixed_header_flags_lem :
    (fh : FixedHeader)
    → fh.packet_type < 16
    → fh.qos < 4
    → validate_fixed_header_flags fh ≡ nibble_ok fh.packet_type (first_byte fh % 16)
unfolding validate_fixed_header_flags
validate_fixed_header_flags_lem fh ht hq =
    flags_nibble fh.packet_type fh.qos fh.dup fh.retain hq
    ∙ ap (nibble_ok fh.packet_type) (rw (first_byte_lem fh ht hq) (low fh.dup fh.retain fh.qos hq))
  where
    low :
        (dup retain : Bool) (q : ℕ)
        → q < 4
        → nibble dup retain q ≡ (fh.packet_type * 16 + nibble dup retain q) % 16
    low true true q h = omega arith
    low true false q h = omega arith
    low false true q h = omega arith
    low false false q h = omega arith
