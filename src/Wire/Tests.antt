-- ===== src/Wire/Tests.antt =====
-- A publish through the codec.
use guyos.Prelude.{◌≤◌, ◌<◌, ◌^◌, ◌≡◌, ◌↔◌, refl, ok, [], ◌∷◌, ◌++◌, length}
use guyos.Text.{Text, lit}
use guyos.Crates.Sample.{sample}
use guyos.Wire.{GuyosWireV1Message, publish, seq_to_wire}
use guyos.Wire.Seq.{parse_seq_wire, parse_seq_wire_iff}
use guyos.Wire.Encode.{
  encode_to_value_with_limits, encode_guyos_wire_v1_json_within_limits, encode_publish,
}
use guyos.Wire.Decode.{decode_guyos_wire_v1_json}
use guyos.Wire.Json.{decode_json-encode_json, encode_json-Within}
use guyos.Wire.Ranges.{InProtocolRange, decode_json-InProtocolRange}

abbrev hello : GuyosWireV1Message sample
hello = publish (record { client_message_id = 7 ∷ []; text = b'h' ∷ b'i' ∷ [] })

-- Key and value of each entry behind their lengths and the tag of a string, the last insertion first.
abbrev hello_json : Text
hello_json =
    (0 ∷ 4 ∷ lit "text")
    ++ ((2 ∷ b'h' ∷ b'i' ∷ [])
        ++ ((0 ∷ 17 ∷ lit "client_message_id")
            ++ ((1 ∷ 7 ∷ []) ++ ((0 ∷ 4 ∷ lit "type") ++ (7 ∷ lit "publish")))))

hello_encoded : encode_guyos_wire_v1_json_within_limits sample hello 100 16 ≡ ok hello_json
unfolding encode_guyos_wire_v1_json_within_limits lit encode_to_value_with_limits encode_publish
hello_encoded = refl

decode_json-encode_json_example : decode_guyos_wire_v1_json sample hello_json ≡ ok hello
decode_json-encode_json_example =
    decode_json-encode_json sample hello 100 16 hello_json tt tt hello_encoded

encode_json-Within_example : (length hello_json ≤ 100) × (2 ≤ 16)
encode_json-Within_example = encode_json-Within sample hello 100 16 hello_json hello_encoded

hello_decoded : decode_guyos_wire_v1_json sample hello_json ≡ ok hello
hello_decoded = decode_json-encode_json sample hello 100 16 hello_json tt tt hello_encoded

decode_json-InProtocolRange_example : InProtocolRange sample hello
decode_json-InProtocolRange_example =
    decode_json-InProtocolRange sample hello_json hello hello_decoded

parse_seq_wire_iff_example :
    (parse_seq_wire (lit "120") ≡ ok 120) ↔ ((lit "120" ≡ seq_to_wire 120) × (120 < 2 ^ 64))
parse_seq_wire_iff_example = parse_seq_wire_iff (lit "120") 120
