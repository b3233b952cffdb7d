-- ===== src/Tests/Source/Packet.antt =====
-- The tests of src/protocol/packet.rs.
use redoxide.Common.{◌+◌, Bool, true, ◌&&◌, ◌≡◌, refl, ◌==◌, Bytes, [], ◌∷◌}
use redoxide.Config.{codes}
use redoxide.Config.Text.{same_text}
use redoxide.Common.Utf8.{is_utf8}
use redoxide.Outcome.{value_of}
use redoxide.Protocol.Varint.{encode_varint, read_varint, read_varint_sync}
use redoxide.Protocol.Packet.{
  encode_packet, encode_string, read_packet, read_string_sync, max_packet_len, max_string_len,
}
use redoxide.Tests.Source.{unwrap, is_err}

abbrev data_bytes : Bytes
data_bytes = 0xaa ∷ 0xbb ∷ 0xcc ∷ []

abbrev test_packet_round_trip : Bool
test_packet_round_trip =
    let encoded = encode_packet 0x00 data_bytes in
    unwrap (value_of (read_packet encoded)) (λ (packet, raw).
      packet.id == 0x00 && same_text packet.contents data_bytes && same_text raw encoded)

packet_round_trip : test_packet_round_trip ≡ true
unfolding encode_packet encode_varint read_packet read_varint read_varint_sync same_text
packet_round_trip = refl

abbrev test_encode_string : Bool
test_encode_string = same_text (encode_string (codes "hello")) (5 ∷ codes "hello")

encodes_string : test_encode_string ≡ true
unfolding encode_string encode_varint same_text
encodes_string = refl

abbrev test_string_round_trip : Bool
test_string_round_trip =
    let original = codes "forbidden.samlo.cloud" in
    unwrap (value_of (read_string_sync (encode_string original)))
      (λ decoded. same_text decoded original)

string_round_trip : test_string_round_trip ≡ true
unfolding encode_string encode_varint read_string_sync read_varint_sync same_text is_utf8
string_round_trip = refl

abbrev test_read_packet_rejects_negative_length : Bool
test_read_packet_rejects_negative_length = is_err (read_packet (encode_varint 0xffff_ffff))

rejects_negative_length : test_read_packet_rejects_negative_length ≡ true
unfolding encode_varint read_packet read_varint
rejects_negative_length = refl

abbrev test_read_packet_rejects_oversized_length : Bool
test_read_packet_rejects_oversized_length =
    is_err (read_packet (encode_varint (max_packet_len + 1)))

rejects_oversized_packet : test_read_packet_rejects_oversized_length ≡ true
unfolding encode_varint read_packet read_varint
rejects_oversized_packet = refl

abbrev test_read_string_rejects_oversized_length : Bool
test_read_string_rejects_oversized_length =
    is_err (read_string_sync (encode_varint (max_string_len + 1)))

rejects_oversized_string : test_read_string_rejects_oversized_length ≡ true
unfolding encode_varint read_string_sync read_varint_sync
rejects_oversized_string = refl
