-- ===== src/Protocol/Codec/Header.antt =====
-- The fixed header of protocol/codec.go: it is read back.
use shark_mqtt.Prelude.{
  ℕ, zero, suc, ◌+◌, ◌*◌, ◌/◌, ◌%◌, ◌^◌, ◌≤◌, ◌<◌, ◌≡◌, ◌⊎◌, inr, refl, ap, ◌∙◌, [], ◌∷◌, ◌++◌, Str,
  Bool, true, false, length, not, ◌==◌, nat_eq, arith,
}
use native.Mathlib.Nat.{mul-le-mul_left}
use shark_mqtt.Prelude.Bytes.{low_bits, top_bit, agree_below, agree_below→eq}
use Prim.Native.Nat.{bit_and}
use shark_mqtt.Protocol.Codec.{
  ok, err, FixedHeader, header_of, decode_length, decode_fixed_header, first_byte, flag,
  encode_fixed_header, read_var_int, read_var_int_from, invalid_packet,
}
use shark_mqtt.Protocol.Codec.Groups.{groups, var_int_loop-groups, split_group}

pow_pos : (k : ℕ) → 1 ≤ 128 ^ k
pow_pos zero = omega arith
pow_pos (suc k) = omega (arith, pow_pos k)

fits_step :
    (k m : ℕ) → m * 128 ^ suc k ≤ 128 ^ 3 → (m * 128 ≤ 128 ^ 3) × (m * 128 * 128 ^ k ≤ 128 ^ 3)
fits_step k m h =
    let step : 128 ^ suc k ≡ 128 * 128 ^ k = omega arith in
    omega (arith, ap (λ (p : ℕ). m * p) step, mul-le-mul_left m (pow_pos k))

abbrev pub read_length : FixedHeader → ℕ → ℕ → FixedHeader
read_length fh length bytes = record fh {
  remaining_length = fh.remaining_length + length;
  header_size = fh.header_size + bytes;
}

last_byte :
    (fh : FixedHeader) (m n w : ℕ) (r : Str)
    → w < 128
    → (0 < w) ⊎ (n ≡ 0)
    → decode_length fh m n (w ∷ r) ≡ ok (read_length fh (w * m) 1) r
unfolding decode_length
last_byte fh m n w r hw h = ground (arith, low_bits w, top_bit w)

inner_byte :
    (fh : FixedHeader) (m n g : ℕ) (r : Str)
    → g < 128
    → m * 128 ≤ 128 ^ 3
    → decode_length fh m n ((g + 128) ∷ r)
      ≡ decode_length (read_length fh (g * m) 1) (m * 128) (n + 1) r
unfolding decode_length
inner_byte fh m n g r hg hm = ground (arith, low_bits (g + 128), top_bit (g + 128))

decode_length-groups :
    (k w : ℕ) (fh : FixedHeader) (m n : ℕ) (r : Str)
    → w < 128 ^ suc k
    → m * 128 ^ k ≤ 128 ^ 3
    → (0 < w) ⊎ (n ≡ 0)
    → decode_length fh m n (groups k w ++ r) ≡ ok (read_length fh (w * m) (length (groups k w))) r
unfolding groups
decode_length-groups zero w fh m n r hw hm h = last_byte fh m n w r hw h
decode_length-groups (suc k) w fh m n r hw hm h = ground (
  arith,
  last_byte fh m n w r,
  inner_byte fh m n (w % 128) (groups k (w / 128) ++ r),
  split_group w m,
  fits_step k m hm,
  decode_length-groups k (w / 128) (read_length fh (w % 128 * m) 1) (m * 128) (n + 1) r
      (omega arith),
)

-- The first byte as a sum, for each of the 256 headers.
header_at : ℕ → FixedHeader
header_at b = record {
  packet_type = b / 16;
  dup = b / 8 % 2 == 1;
  qos = b / 2 % 4;
  retain = b % 2 == 1;
  remaining_length = 0;
  header_size = 1;
}

first_byte_at : (b : ℕ) → b < 256 → first_byte (header_at b) ≡ b
unfolding agree_below first_byte header_at
first_byte_at = agree_below→eq _ _ 256 refl

abbrev pub nibble : Bool → Bool → ℕ → ℕ
nibble dup retain qos = flag dup 8 + qos * 2 + flag retain 1

same_fields :
    (t q : ℕ) (dup retain : Bool)
    → t < 16
    → q < 4
    → (b : ℕ) → b ≡ t * 16 + nibble dup retain q
    → (b / 16 ≡ t) × (b / 8 % 2 == 1 ≡ dup) × (b / 2 % 4 ≡ q) × (b % 2 == 1 ≡ retain) × (b < 256)
same_fields t q true true ht hq b e =
    (omega arith, ground arith, omega arith, ground arith, omega arith)
same_fields t q true false ht hq b e =
    (omega arith, ground arith, omega arith, ground arith, omega arith)
same_fields t q false true ht hq b e =
    (omega arith, ground arith, omega arith, ground arith, omega arith)
same_fields t q false false ht hq b e =
    (omega arith, ground arith, omega arith, ground arith, omega arith)

pub first_byte_lem :
    (fh : FixedHeader)
    → fh.packet_type < 16
    → fh.qos < 4
    → first_byte fh ≡ fh.packet_type * 16 + nibble fh.dup fh.retain fh.qos
unfolding first_byte header_at
first_byte_lem fh ht hq =
    let (t, d, q, r, small) = same_fields fh.packet_type fh.qos fh.dup fh.retain ht hq _ refl in
    rw (t, d, q, r) at (first_byte_at _ small)

-- The masks of the first byte.
high_bits : (b : ℕ) → b < 256 → bit_and (b / 16) 0x0F ≡ b / 16
unfolding agree_below
high_bits = agree_below→eq _ _ 256 refl

dup_bit : (b : ℕ) → b < 256 → bit_and b 0x08 ≡ b / 8 % 2 * 8
unfolding agree_below
dup_bit = agree_below→eq _ _ 256 refl

qos_bits : (b : ℕ) → b < 256 → bit_and (b / 2) 0x03 ≡ b / 2 % 4
unfolding agree_below
qos_bits = agree_below→eq _ _ 256 refl

retain_bit : (b : ℕ) → b < 256 → bit_and b 0x01 ≡ b % 2
unfolding agree_below
retain_bit = agree_below→eq _ _ 256 refl

set_flag : (n : ℕ) (b : Bool) → n % 2 == 1 ≡ b → not (n % 2 * 8 == 0) ≡ b
set_flag n true h = ground arith
set_flag n false h = ground arith

set_retain : (n : ℕ) (b : Bool) → n % 2 == 1 ≡ b → not (n % 2 == 0) ≡ b
set_retain n true h = ground arith
set_retain n false h = ground arith

header_of-first_byte :
    (fh : FixedHeader)
    → fh.packet_type < 16
    → fh.qos < 4
    → header_of (first_byte fh) ≡ record fh { remaining_length = 0; header_size = 1 }
header_of-first_byte fh ht hq =
    let b = first_byte fh in
    let (t, d, q, r, small) =
      same_fields fh.packet_type fh.qos fh.dup fh.retain ht hq b (first_byte_lem fh ht hq) in
    rw
      (
        high_bits b small ∙ t,
        qos_bits b small ∙ q,
        ap (λ x. not (x == 0)) (dup_bit b small) ∙ set_flag (b / 8) fh.dup d,
        ap (λ x. not (x == 0)) (retain_bit b small) ∙ set_retain b fh.retain r,
      )
      refl

read_whole :
    (fh : FixedHeader) (n : ℕ)
    → read_length (record fh { remaining_length = 0; header_size = 1 }) (fh.remaining_length * 1) n
      ≡ record fh { header_size = suc n }
read_whole fh n =
    let same_length : 0 + fh.remaining_length * 1 ≡ fh.remaining_length = omega arith in
    let same_size : 1 + n ≡ suc n = omega arith in rw (same_length, same_size) refl

-- The decoder reads back every fixed header with a packet type of four bits, a QoS of two and a
-- length below 2^28, with the number of the bytes it has on the wire, and leaves what follows.
pub decode_fixed_header-encode :
    (fh : FixedHeader) (r : Str)
    → fh.packet_type < 16
    → fh.qos < 4
    → fh.remaining_length < 128 ^ 4
    → decode_fixed_header (encode_fixed_header fh ++ r)
      ≡ ok (record fh { header_size = length (encode_fixed_header fh) }) r
unfolding decode_fixed_header encode_fixed_header
decode_fixed_header-encode fh r ht hq hl =
    rw (var_int_loop-groups 3 [] fh.remaining_length _ hl, header_of-first_byte fh ht hq)
      (decode_length-groups 3 fh.remaining_length
          (record fh { remaining_length = 0; header_size = 1 }) 1 0 r hl (omega arith) (inr refl)
        ∙ ap (λ x. ok x r) (read_whole fh (length (groups 3 fh.remaining_length))))

-- The two decoders disagree on the encoding of a number below 128 in two bytes: `readVarInt`
-- returns the number, and a fixed header with such a length is refused.
pub read_var_int_overlong :
    (v b : ℕ) (r : Str)
    → v < 128
    → (read_var_int ((v + 128) ∷ 0 ∷ r) ≡ ok v r)
      × (decode_fixed_header (b ∷ (v + 128) ∷ 0 ∷ r) ≡ err invalid_packet)
unfolding read_var_int read_var_int_from decode_fixed_header decode_length
read_var_int_overlong v b r h = (
  ground (arith, low_bits (v + 128), top_bit (v + 128)),
  ground (arith, low_bits (v + 128), top_bit (v + 128)),
)
