-- ===== src/Protocol/Codec/Text/RoundTrip.antt =====
-- A string that protocol/codec.go writes is read back.
use shark_mqtt.Prelude.{
  ℕ, ◌+◌, ◌*◌, ◌/◌, ◌%◌, ◌^◌, ◌≤◌, ◌≡◌, inl, inr, refl, false, Option, none, some, [], ◌∷◌, ◌++◌,
  Str, length, ltb, nat_eq, arith, Bool-cases, take-length-append, drop-length-append,
  length-append,
}
use shark_mqtt.Protocol.Codec.{CodecError, ok}
use shark_mqtt.Protocol.Codec.Text.{
  validate_utf8, read_text, read_string_bounded, read_string, with_prefix, write_string, valid_from,
  control_free,
}

-- The text behind its length is read back, if it passes the check.
read_text-append :
    (s r : Str)
    → length s ≤ 65535
    → validate_utf8 s ≡ none
    → read_text 65535 (length s) (s ++ r) ≡ ok s r
unfolding read_text
read_text-append [] r h v = refl
read_text-append (b ∷ s) r h v =
    let enough : ltb (length (b ∷ s ++ r)) (length (b ∷ s)) ≡ false =
      ground (arith, length-append s r) in
    let fits : ltb 65535 (length (b ∷ s)) ≡ false = ground arith in
    rw (fits, enough, take-length-append (b ∷ s) r, drop-length-append (b ∷ s) r, v) (ground arith)

prefix_value : (n : ℕ) → n ≤ 65535 → n % 2 ^ 16 / 256 * 256 + n % 2 ^ 16 % 256 ≡ n
prefix_value n h = omega arith

read_prefixed :
    (s r : Str)
    → length s ≤ 65535
    → validate_utf8 s ≡ none
    → read_string ((length s % 2 ^ 16 / 256) ∷ (length s % 2 ^ 16 % 256) ∷ s ++ r) ≡ ok s r
unfolding read_string read_string_bounded
read_prefixed s r h v = rw (prefix_value (length s) h) (read_text-append s r h v)

abbrev Written : Str → Str → Type 0
Written s out =
    (length s ≤ 65535)
    × (validate_utf8 s ≡ none)
    × (out ≡ (length s % 2 ^ 16 / 256) ∷ (length s % 2 ^ 16 % 256) ∷ s)

with_prefix-Written :
    (s out : Str) (o : Option CodecError)
    → length s ≤ 65535
    → validate_utf8 s ≡ o
    → with_prefix s o ≡ inl out
    → Written s out
with_prefix-Written s out none h v e = (h, v, cc)
with_prefix-Written s out (some x) h v e = absurd cc

-- The check passes whatever `writeString` has written: it makes it itself, but for the empty string.
written_lem : (s out : Str) → write_string s ≡ inl out → Written s out
unfolding write_string validate_utf8 valid_from control_free
written_lem [] out e = with_prefix-Written [] out none (omega arith) refl e
written_lem (b ∷ s) out e = elim (Bool-cases (ltb 65535 (length (b ∷ s)))) [
  | inl x ↦ absurd (ground (arith, e, x))
  | inr x ↦
      let short : length (b ∷ s) ≤ 65535 = ground arith in
      with_prefix-Written (b ∷ s) out (validate_utf8 (b ∷ s)) short refl (ground (arith, e, x))
]

-- Whatever `writeString` writes, a string of at most 65535 bytes that passes the UTF-8 check,
-- `readString` reads back, and it leaves what follows.
pub read_string-write : (s out r : Str) → write_string s ≡ inl out → read_string (out ++ r) ≡ ok s r
read_string-write s out r e = let (h, v, o) = written_lem s out e in rw o (read_prefixed s r h v)
