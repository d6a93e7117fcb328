-- ===== src/Protocol/Codec.antt =====
-- protocol/codec.go: the fixed header and the integers of a packet. A reader is the list of the
-- bytes it has not returned yet, and a writer the list of the bytes it has been given.
pub mod Groups
pub mod Header
pub mod Flags
pub mod Canonical
pub mod Text
use shark_mqtt.Prelude.{
  ℕ, zero, suc, ◌+◌, ◌*◌, ◌/◌, ◌%◌, ◌^◌, ◌<◌, Bool, true, false, not, ◌&&◌, ◌||◌, Option, none,
  some, List, [], ◌∷◌, ◌++◌, Str, length, ltb, ◌==◌, nat_eq, if◌then◌else◌, arith,
}
use Prim.Native.Nat.{bit_and, bit_or}
use mathlib.Core.Logic.{dite}
use mathlib.Core.WellFounded.{Acc}
use native.Mathlib.Decide.{dec_lt}
use shark_mqtt.Prelude.Bytes.{lt_wf}

-- `end_of_input` is io.EOF, `short_input` io.ErrUnexpectedEOF.
pub data CodecError : Type 0 where
  end_of_input short_input invalid_packet malformed_packet : CodecError
  var_int_too_long string_too_long invalid_utf8 control_character : CodecError

-- What a read returns: a value and the bytes left in the reader, or an error.
pub data Read {ℓ} (A : Type ℓ) : Type ℓ where
  ok : A → Str → Read A
  err : CodecError → Read A

-- `packet_type` is the number of the constant, `remaining_length` of the type int stays below 2^28.
pub record FixedHeader : Type 0 where
  pub packet_type : ℕ
  pub dup : Bool
  pub qos : ℕ
  pub retain : Bool
  pub remaining_length : ℕ
  pub header_size : ℕ

shift_shrinks : (v : ℕ) → 0 < v / 128 → v / 128 < v
shift_shrinks v h = omega arith

-- The loop that `writeVarInt` and `encodeFixedHeader` both have, after the bytes `out`.
pub var_int_loop : Str → (v : ℕ) → Acc ◌<◌ v → Str
var_int_loop out v (Acc.intro _ smaller) =
    let encoded = v % 128 % 256 in
    dite (dec_lt 0 (v / 128))
      (λ more.
        var_int_loop (out ++ bit_or encoded 0x80 ∷ []) (v / 128) (smaller _ (shift_shrinks v more)))
      (λ _. out ++ encoded ∷ [])

-- `writeVarInt(w, val)`: what it writes.
unfoldable pub write_var_int : ℕ → Str
write_var_int v = var_int_loop [] v (lt_wf.apply v)

-- `val += uint32(buf[0]&0x7F) * multiplier`
abbrev pub add_group : ℕ → ℕ → ℕ → ℕ
add_group val b multiplier = (val + bit_and b 0x7F * multiplier % 2 ^ 32) % 2 ^ 32

-- The loop of `readVarInt` with `4 - i` rounds left.
unfoldable pub read_var_int_from : ℕ → ℕ → ℕ → Str → Read ℕ
read_var_int_from zero val multiplier r = err var_int_too_long
read_var_int_from (suc rounds) val multiplier [] = err end_of_input
read_var_int_from (suc rounds) val multiplier (b ∷ r) =
    let val' = add_group val b multiplier in
    let rest = read_var_int_from rounds val' (multiplier * 128 % 2 ^ 32) r in
    if bit_and b 0x80 == 0 then ok val' r else rest

unfoldable pub read_var_int : Str → Read ℕ
read_var_int r = read_var_int_from 4 0 1 r

-- The loop of `decodeFixedHeader`: `fh` with what has been read of the length.
unfoldable pub decode_length : FixedHeader → ℕ → ℕ → Str → Read FixedHeader
decode_length fh multiplier rem_len_bytes [] = err end_of_input
decode_length fh multiplier rem_len_bytes (b ∷ r) =
    let fh' = record fh {
      remaining_length = fh.remaining_length + bit_and b 0x7F * multiplier;
      header_size = fh.header_size + 1;
    } in
    let rest = decode_length fh' (multiplier * 128) (rem_len_bytes + 1) r in
    if bit_and b 0x80 == 0
    then (if ltb 1 (rem_len_bytes + 1) && bit_and b 0x7F == 0 then err invalid_packet else ok fh' r)
    else if ltb (128 * 128 * 128) (multiplier * 128)
    then err invalid_packet
    else rest

-- The fields that the first byte holds.
abbrev pub header_of : ℕ → FixedHeader
header_of b = record {
  packet_type = bit_and (b / 16) 0x0F;
  dup = not (bit_and b 0x08 == 0);
  qos = bit_and (b / 2) 0x03;
  retain = not (bit_and b 0x01 == 0);
  remaining_length = 0;
  header_size = 1;
}

unfoldable pub decode_fixed_header : Str → Read FixedHeader
decode_fixed_header [] = err end_of_input
decode_fixed_header (b ∷ r) = decode_length (header_of b) 1 0 r

abbrev pub flag : Bool → ℕ → ℕ
flag b mask = if b then mask else 0

unfoldable pub first_byte : FixedHeader → ℕ
first_byte fh =
    let dup = bit_or (fh.packet_type * 16 % 256) (flag fh.dup 0x08) in
    let qos = bit_or dup (bit_and fh.qos 0x03 * 2 % 256) in bit_or qos (flag fh.retain 0x01)

-- `encodeFixedHeader(w, fh)`: what it writes.
unfoldable pub encode_fixed_header : FixedHeader → Str
encode_fixed_header fh =
    first_byte fh ∷ var_int_loop [] fh.remaining_length (lt_wf.apply fh.remaining_length)

-- `validateFixedHeaderFlags(fh)` returns no error.
unfoldable pub validate_fixed_header_flags : FixedHeader → Bool
validate_fixed_header_flags fh =
    if fh.packet_type == 3
    then not (fh.qos == 3)
    else if fh.packet_type == 6 || fh.packet_type == 8 || fh.packet_type == 10
    then not (not (fh.qos == 1) || fh.retain)
    else not (fh.dup || not (fh.qos == 0) || fh.retain)

-- `readUint16(r)`; `io.ReadFull` asks for both bytes.
unfoldable pub read_uint16 : Str → Read ℕ
read_uint16 [] = err end_of_input
read_uint16 (a ∷ []) = err short_input
read_uint16 (a ∷ b ∷ r) = ok (a * 256 + b) r

unfoldable pub write_uint16 : ℕ → Str
write_uint16 v = v / 256 % 256 ∷ v % 256 ∷ []
