-- ===== src/Protocol/Codec/Canonical.antt =====
-- A fixed header that protocol/codec.go accepts has one encoding only, the shortest.
use shark_mqtt.Prelude.{
  ℕ, suc, ◌+◌, ◌*◌, ◌/◌, ◌%◌, ◌^◌, ◌≤◌, ◌<◌, ◌≡◌, ◌⊎◌, inl, inr, refl, ap, ◌∙◌, [], ◌∷◌, ◌++◌, Str,
  true, false, length, ◌==◌, nat_eq, arith, All, Bool-cases,
}
use Prim.Native.Nat.{bit_and}
use shark_mqtt.Prelude.Bytes.{low_bits, top_bit, agree_below, agree_below→eq}
use shark_mqtt.Protocol.Codec.{
  ok, FixedHeader, header_of, decode_length, decode_fixed_header, first_byte, encode_fixed_header,
}
use shark_mqtt.Protocol.Codec.Groups.{groups, var_int_loop-groups}
use shark_mqtt.Protocol.Codec.Header.{read_length}

abbrev pub IsByte : ℕ → Type 0
IsByte b = b < 256

-- What a successful read of the length has consumed: the encoding of a number `w` in `k + 1` bytes.
record Consumed (fh : FixedHeader) (m n : ℕ) (src : Str) (fh' : FixedHeader) (r : Str)
    : Type 0 where
  k : ℕ
  w : ℕ
  small : w < 128 ^ suc k
  fits : m * 128 ^ k ≤ 128 ^ 3
  minimal : (0 < w) ⊎ (n ≡ 0)
  bytes : groups k w ++ r ≡ src
  result : fh' ≡ read_length fh (w * m) (length (groups k w))

-- A byte as its group of seven bits, with and without the top bit.
last_group : (b : ℕ) → IsByte b → bit_and b 0x80 == 0 ≡ true → b < 128
last_group b h e = ground (arith, top_bit b h)

inner_group : (b : ℕ) → IsByte b → bit_and b 0x80 == 0 ≡ false → b ≡ b % 128 + 128
inner_group b h e = ground (arith, top_bit b h)

groups_step :
    (k w b : ℕ) → 0 < w → b ≡ b % 128 + 128 → groups (suc k) (w * 128 + b % 128) ≡ b ∷ groups k w
unfolding groups
groups_step k w b hw hb =
    let low : (w * 128 + b % 128) % 128 + 128 ≡ b = omega arith in
    let high : (w * 128 + b % 128) / 128 ≡ w = omega arith in ground (arith, low, high)

fits_more : (k m : ℕ) → m * 128 * 128 ^ k ≤ 128 ^ 3 → m * 128 ^ suc k ≤ 128 ^ 3
fits_more k m h =
    let step : 128 ^ suc k ≡ 128 * 128 ^ k = omega arith in
    omega (arith, ap (λ (p : ℕ). m * p) step)

read_length_twice :
    (fh : FixedHeader) (m w b x : ℕ)
    → read_length (read_length fh (b * m) 1) (w * (m * 128)) x
      ≡ read_length fh ((w * 128 + b) * m) (suc x)
read_length_twice fh m w b x =
    let length : fh.remaining_length + b * m + w * (m * 128)
        ≡ fh.remaining_length + (w * 128 + b) * m =
      omega arith in
    let size : fh.header_size + 1 + x ≡ fh.header_size + suc x = omega arith in
    rw (length, size) refl

later_positive : (w n : ℕ) → (0 < w) ⊎ (n + 1 ≡ 0) → 0 < w
later_positive w n (inl h) = h
later_positive w n (inr h) = absurd (omega arith)

module _ (fh : FixedHeader) (m n b : ℕ) (r s : Str) (fh' : FixedHeader) (h : IsByte b) where
  -- The last byte of a length.
  Consumed-last :
      bit_and b 0x80 == 0 ≡ true
      → m ≤ 128 ^ 3
      → decode_length fh m n (b ∷ s) ≡ ok fh' r
      → Consumed fh m n (b ∷ s) fh' r
  unfolding decode_length groups
  Consumed-last e hm d =
      let low : bit_and b 0x7F ≡ b = low_bits b h ∙ omega (arith, last_group b h e) in
      let same : ok (read_length fh (b * m) 1) s ≡ ok fh' r = ground (arith, low) in
      record {
        k = 0;
        w = b;
        small = omega (arith, last_group b h e);
        fits = omega arith;
        minimal = ground (arith, low);
        bytes = cc;
        result = cc;
      }

  -- A byte that another one follows.
  consumed_inner :
      bit_and b 0x80 == 0 ≡ false
      → decode_length fh m n (b ∷ s) ≡ ok fh' r
      → (m * 128 ≤ 128 ^ 3)
        × (decode_length (read_length fh (b % 128 * m) 1) (m * 128) (n + 1) s ≡ ok fh' r)
  unfolding decode_length
  consumed_inner e d = ground (arith, low_bits b h)

  Consumed-more :
      bit_and b 0x80 == 0 ≡ false
      → Consumed (read_length fh (b % 128 * m) 1) (m * 128) (n + 1) s fh' r
      → Consumed fh m n (b ∷ s) fh' r
  Consumed-more e c =
      let positive = later_positive c.w n c.minimal in
      let step = groups_step c.k c.w b positive (inner_group b h e) in
      record {
        k = suc c.k;
        w = c.w * 128 + b % 128;
        small = omega (arith, c.small);
        fits = fits_more c.k m c.fits;
        minimal = inl (omega (arith, positive));
        bytes = rw step (ap (λ x. b ∷ x) c.bytes);
        result = c.result ∙ read_length_twice fh m c.w (b % 128) _ ∙ rw step refl;
      }

decode_length-Consumed :
    (src : Str) (fh : FixedHeader) (m n : ℕ) (fh' : FixedHeader) (r : Str)
    → All IsByte src
    → m ≤ 128 ^ 3
    → decode_length fh m n src ≡ ok fh' r
    → Consumed fh m n src fh' r
unfolding decode_length
decode_length-Consumed [] fh m n fh' r h hm d = absurd cc
decode_length-Consumed (b ∷ s) fh m n fh' r (hb, hs) hm d =
    elim (Bool-cases (bit_and b 0x80 == 0)) [
      | inl e ↦ Consumed-last fh m n b r s fh' hb e hm d
      | inr e ↦
          let (hm', d') = consumed_inner fh m n b r s fh' hb e d in
          Consumed-more fh m n b r s fh' hb e
            (decode_length-Consumed s _ (m * 128) (n + 1) fh' r hs hm' d')
    ]

first_byte-header_of : (b : ℕ) → IsByte b → first_byte (header_of b) ≡ b
unfolding agree_below first_byte
first_byte-header_of = agree_below→eq _ _ 256 refl

first_byte-read_length :
    (fh : FixedHeader) (length bytes : ℕ) → first_byte (read_length fh length bytes) ≡ first_byte fh
unfolding first_byte
first_byte-read_length fh length bytes = refl

-- A fixed header that the decoder accepts, from a sequence of bytes, is what the encoder writes for
-- it, with what is left behind it.
pub encode-decode_fixed_header :
    (src : Str) (fh : FixedHeader) (r : Str)
    → All IsByte src
    → decode_fixed_header src ≡ ok fh r
    → encode_fixed_header fh ++ r ≡ src
unfolding decode_fixed_header encode_fixed_header
encode-decode_fixed_header [] fh r h d = absurd cc
encode-decode_fixed_header (b ∷ s) fh r (hb, hs) d =
    let c = decode_length-Consumed s (header_of b) 1 0 fh r hs (omega arith) d in
    let first =
      ap first_byte c.result
      ∙ first_byte-read_length (header_of b) (c.w * 1) _
      ∙ first_byte-header_of b hb in
    let length : fh.remaining_length ≡ c.w =
      ap (λ (x : FixedHeader). x.remaining_length) c.result ∙ omega arith in
    let fits : fh.remaining_length < 128 ^ suc c.k = omega (arith, length, c.small) in
    rw (var_int_loop-groups c.k [] fh.remaining_length _ fits, first, length)
      (ap (λ x. b ∷ x) c.bytes)
