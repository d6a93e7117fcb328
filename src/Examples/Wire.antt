-- ===== src/Examples/Wire.antt =====
-- Fixed headers and variable byte integers at concrete values.
use shark_mqtt.Prelude.{Str, codes, none, inl, ◌≡◌, refl, true, false, [], ◌∷◌, ◌++◌, length, arith}
use shark_mqtt.Protocol.Codec.{
  FixedHeader, ok, decode_length, decode_fixed_header, encode_fixed_header, read_var_int,
  write_var_int,
}
use shark_mqtt.Protocol.Codec.Groups.{read_var_int-write}
use shark_mqtt.Protocol.Codec.Header.{decode_fixed_header-encode}
use shark_mqtt.Protocol.Codec.Text.{
  write_string, read_string, validate_utf8, valid_from, control_free, decode_rune,
}
use shark_mqtt.Protocol.Codec.Text.RoundTrip.{read_string-write}
use shark_mqtt.Protocol.Codec.Canonical.{encode-decode_fixed_header}

-- A PUBLISH at QoS 1 with RETAIN and 321 bytes behind its header.
abbrev publish_header : FixedHeader
publish_header = record {
  packet_type = 3;
  dup = false;
  qos = 1;
  retain = true;
  remaining_length = 321;
  header_size = 3;
}

decoded : decode_fixed_header (0x33 ∷ 0xC1 ∷ 0x02 ∷ 7 ∷ []) ≡ ok publish_header (7 ∷ [])
unfolding decode_fixed_header decode_length
decoded = refl

encode-decode_fixed_header_example :
    encode_fixed_header publish_header ++ 7 ∷ [] ≡ 0x33 ∷ 0xC1 ∷ 0x02 ∷ 7 ∷ []
encode-decode_fixed_header_example =
    encode-decode_fixed_header (0x33 ∷ 0xC1 ∷ 0x02 ∷ 7 ∷ []) publish_header (7 ∷ [])
      (omega arith, (omega arith, (omega arith, (omega arith, tt)))) decoded

decode_fixed_header-encode_example :
    decode_fixed_header (encode_fixed_header publish_header ++ 7 ∷ [])
    ≡ ok
        (record publish_header { header_size = length (encode_fixed_header publish_header) })
        (7 ∷ [])
decode_fixed_header-encode_example =
    decode_fixed_header-encode publish_header (7 ∷ []) (omega arith) (omega arith) (omega arith)

read_var_int-write_example : read_var_int (write_var_int 321 ++ 7 ∷ []) ≡ ok 321 (7 ∷ [])
read_var_int-write_example = read_var_int-write 321 (7 ∷ []) (omega arith)

abbrev out : Str
out = 0 ∷ 3 ∷ codes "a/b"

text_written : write_string (codes "a/b") ≡ inl out
unfolding write_string validate_utf8 valid_from control_free decode_rune
text_written = refl

text_valid : validate_utf8 (codes "a/b") ≡ none
unfolding validate_utf8 valid_from control_free decode_rune
text_valid = refl

read_string-write_example : read_string (out ++ 7 ∷ []) ≡ ok (codes "a/b") (7 ∷ [])
read_string-write_example = read_string-write (codes "a/b") out (7 ∷ []) text_written
