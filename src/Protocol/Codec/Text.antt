-- ===== src/Protocol/Codec/Text.antt =====
-- protocol/codec.go: the strings of a packet. `decode_rune` is DecodeRuneInString of Go's unicode/utf8.
pub mod RoundTrip
pub mod Printable
use shark_mqtt.Prelude.{
  ℕ, zero, suc, ◌+◌, ◌-◌, ◌*◌, ◌/◌, ◌%◌, ◌^◌, Bool, true, false, ◌&&◌, ◌||◌, ◌⊎◌, inl, inr, Option,
  none, some, List, [], ◌∷◌, ◌++◌, Str, length, take, drop, ltb, leb, ◌==◌, nat_eq, if◌then◌else◌,
}
use shark_mqtt.Protocol.Codec.{
  CodecError, end_of_input, short_input, malformed_packet, invalid_utf8, control_character,
  string_too_long, Read, ok, err,
}

abbrev pub between : ℕ → ℕ → ℕ → Bool
between lo hi b = leb lo b && leb b hi

-- A continuation byte.
abbrev pub tail_byte : ℕ → Bool
tail_byte = between 0x80 0xBF

-- The second byte that a first byte of a long rune allows.
abbrev pub second_byte : ℕ → ℕ → Bool
second_byte a =
    if a == 0xE0
    then between 0xA0 0xBF
    else if a == 0xED
    then between 0x80 0x9F
    else if a == 0xF0
    then between 0x90 0xBF
    else if a == 0xF4
    then between 0x80 0x8F
    else tail_byte

-- RuneError with the width 1.
abbrev pub rune_error : ℕ × ℕ
rune_error = (0xFFFD, 1)

-- The first rune and its width in bytes.
unfoldable pub decode_rune : Str → ℕ × ℕ
decode_rune [] = (0xFFFD, 0)
decode_rune (a ∷ []) = if ltb a 0x80 then (a, 1) else rune_error
decode_rune (a ∷ b ∷ []) =
    if ltb a 0x80
    then (a, 1)
    else if between 0xC2 0xDF a && tail_byte b
    then (a % 32 * 64 + b % 64, 2)
    else rune_error
decode_rune (a ∷ b ∷ c ∷ []) =
    if ltb a 0x80
    then (a, 1)
    else if between 0xC2 0xDF a && tail_byte b
    then (a % 32 * 64 + b % 64, 2)
    else if between 0xE0 0xEF a && second_byte a b && tail_byte c
    then (a % 16 * 4096 + b % 64 * 64 + c % 64, 3)
    else rune_error
decode_rune (a ∷ b ∷ c ∷ d ∷ s) =
    if ltb a 0x80
    then (a, 1)
    else if between 0xC2 0xDF a && tail_byte b
    then (a % 32 * 64 + b % 64, 2)
    else if between 0xE0 0xEF a && second_byte a b && tail_byte c
    then (a % 16 * 4096 + b % 64 * 64 + c % 64, 3)
    else if between 0xF0 0xF4 a && second_byte a b && tail_byte c && tail_byte d
    then (a % 8 * 262144 + b % 64 * 4096 + c % 64 * 64 + d % 64, 4)
    else rune_error

-- `utf8.ValidString(s)`. The number counts the bytes that belong to the rune before.
unfoldable pub valid_from : ℕ → Str → Bool
valid_from skip [] = true
valid_from (suc skip) (b ∷ s) = valid_from skip s
valid_from zero (b ∷ s) =
    let (rune, width) = decode_rune (b ∷ s) in
    let rest = valid_from (width - 1) s in if rune == 0xFFFD && width == 1 then false else rest

-- `r <= 0x001F || (r >= 0x007F && r <= 0x009F)`
abbrev pub is_control : ℕ → Bool
is_control r = leb r 0x1F || between 0x7F 0x9F r

-- The loop of `validateUTF8`, with the bytes that belong to the rune before: no control character.
unfoldable pub control_free : ℕ → Str → Bool
control_free skip [] = true
control_free (suc skip) (b ∷ s) = control_free skip s
control_free zero (b ∷ s) =
    let (rune, width) = decode_rune (b ∷ s) in
    let rest = control_free (width - 1) s in if is_control rune then false else rest

unfoldable pub validate_utf8 : Str → Option CodecError
validate_utf8 s =
    if valid_from 0 s
    then (if control_free 0 s then none else some control_character)
    else some invalid_utf8

abbrev pub checked : Str → Str → Option CodecError → Read Str
checked s r none = ok s r
checked s r (some e) = err e

-- The rest of `readStringBounded` behind the length prefix. The pool of the buffer is left out.
unfoldable pub read_text : ℕ → ℕ → Str → Read Str
read_text max n r =
    if n == 0
    then ok [] r
    else if ltb max n
    then err malformed_packet
    else if ltb (length r) n
    then (if length r == 0 then err end_of_input else err short_input)
    else checked (take n r) (drop n r) (validate_utf8 (take n r))

unfoldable pub read_string_bounded : ℕ → Str → Read Str
read_string_bounded max [] = err end_of_input
read_string_bounded max (a ∷ []) = err short_input
read_string_bounded max (a ∷ b ∷ r) = read_text max (a * 256 + b) r

unfoldable pub read_string : Str → Read Str
read_string r = read_string_bounded 65535 r

abbrev pub with_prefix : Str → Option CodecError → Str ⊎ CodecError
with_prefix s none = inl ((length s % 2 ^ 16 / 256) ∷ (length s % 2 ^ 16 % 256) ∷ s)
with_prefix s (some e) = inr e

-- `writeString(w, s)`: what it writes, or its error.
unfoldable pub write_string : Str → Str ⊎ CodecError
write_string s =
    if ltb 65535 (length s)
    then inr string_too_long
    else with_prefix s (if ltb 0 (length s) then validate_utf8 s else none)
