-- ===== src/Tests/Wire.antt =====
-- Examples for src/protocol and src/status.rs.
use redoxide.Common.{◌+◌, ◌≤◌, ◌≡◌, refl, true, none, Bytes, [], ◌∷◌, ◌++◌, length, arith}
use redoxide.Common.Utf8.{is_utf8}
use redoxide.Config.{StatusConfig, codes}
use redoxide.Outcome.{ok}
use redoxide.Protocol.Varint.{read_varint, read_varint_sync, encode_varint}
use redoxide.Protocol.Varint.Encode.{length-encode_varint-le}
use redoxide.Protocol.Varint.RoundTrip.{read_varint-encode_varint, encode_varint_shortest}
use redoxide.Protocol.Varint.Decode.{decoded, read_varint-decoded, read_varint_sync-eq}
use redoxide.Protocol.Packet.{encode_packet, read_packet}
use redoxide.Protocol.Packet.Framing.{read_packet-encode_packet, read_packet_relays}
use redoxide.Protocol.Handshake.{parse_handshake}
use redoxide.Protocol.Handshake.Parse.{HasNoNul, handshake_bytes, parse_handshake-handshake_bytes}
use redoxide.Status.{Json}

abbrev behind : Bytes
behind = 1 ∷ []

abbrev last : Bytes
last = 9 ∷ []

-- The bytes of protocol number 770, and its reading.
encode_770 : encode_varint 770 ≡ 0x82 ∷ 0x06 ∷ []
unfolding encode_varint
encode_770 = refl

minus_one : encode_varint 0xffff_ffff ≡ 0xff ∷ 0xff ∷ 0xff ∷ 0xff ∷ 0x0f ∷ []
unfolding encode_varint
minus_one = refl

read_varint-decoded_example :
    read_varint (0x82 ∷ 0x06 ∷ 0x01 ∷ []) ≡ decoded 5 1 0 (0x82 ∷ 0x06 ∷ 0x01 ∷ [])
read_varint-decoded_example = read_varint-decoded (0x82 ∷ 0x06 ∷ 0x01 ∷ [])

read_varint_sync-eq_example : read_varint_sync (0x82 ∷ 0x06 ∷ []) ≡ read_varint (0x82 ∷ 0x06 ∷ [])
read_varint_sync-eq_example = read_varint_sync-eq (0x82 ∷ 0x06 ∷ [])

read_770 : read_varint (encode_varint 770 ++ (1 ∷ [])) ≡ ok (770, 1 ∷ [])
read_770 = read_varint-encode_varint 770 (1 ∷ []) (omega arith)

read_varint-encode_varint_example :
    read_varint (encode_varint 0xffff_ffff ++ (1 ∷ 2 ∷ [])) ≡ ok (0xffff_ffff, 1 ∷ 2 ∷ [])
read_varint-encode_varint_example = read_varint-encode_varint 0xffff_ffff (1 ∷ 2 ∷ []) (omega arith)

encode_varint_shortest_example :
    length (encode_varint 770) + length behind ≤ length (encode_varint 770 ++ (1 ∷ []))
encode_varint_shortest_example =
    encode_varint_shortest (encode_varint 770 ++ (1 ∷ [])) 770 (1 ∷ []) read_770

read_packet-encode_packet_example :
    read_packet (encode_packet 5 (1 ∷ 2 ∷ []) ++ (9 ∷ []))
    ≡ ok ((record { id = 5; contents = 1 ∷ 2 ∷ [] }, encode_packet 5 (1 ∷ 2 ∷ [])), 9 ∷ [])
read_packet-encode_packet_example =
    read_packet-encode_packet 5 (1 ∷ 2 ∷ []) (9 ∷ []) (omega arith)
      (omega (arith, length-encode_varint-le 4 5 (omega arith)))

read_packet_relays_example :
    (read_packet (encode_packet 5 (1 ∷ 2 ∷ []) ++ [])
      ≡ ok ((record { id = 5; contents = 1 ∷ 2 ∷ [] }, encode_packet 5 (1 ∷ 2 ∷ [])), []))
    × (length (encode_packet 5 (1 ∷ 2 ∷ [])) + length last
        ≤ length (encode_packet 5 (1 ∷ 2 ∷ []) ++ (9 ∷ [])))
read_packet_relays_example =
    read_packet_relays (encode_packet 5 (1 ∷ 2 ∷ []) ++ (9 ∷ [])) (9 ∷ []) []
      (record { id = 5; contents = 1 ∷ 2 ∷ [] }) (encode_packet 5 (1 ∷ 2 ∷ []))
      read_packet-encode_packet_example

valid_name : is_utf8 (codes "Steve") ≡ true
unfolding is_utf8
valid_name = refl

no_nul : HasNoNul (codes "mc.example.org")
no_nul = ground arith

forge_utf8 : is_utf8 (codes "mc.example.org" ++ (0 ∷ codes "FML2")) ≡ true
unfolding is_utf8
forge_utf8 = refl

parse_handshake-handshake_bytes_example :
    parse_handshake
      (handshake_bytes 770 (codes "mc.example.org" ++ (0 ∷ codes "FML2")) 99 221 2 (8 ∷ []))
    ≡ ok
        (record { protocol_version = 770; server_address = codes "mc.example.org"; next_state = 2 })
parse_handshake-handshake_bytes_example =
    parse_handshake-handshake_bytes 770 (codes "mc.example.org") (codes "FML2") 99 221 2 (8 ∷ [])
      (omega arith) no_nul forge_utf8 (omega arith) (omega arith)

abbrev braces : Json → Bytes
braces j = codes "{}"

abbrev shown : StatusConfig
shown = record {
  protocol_version = 770;
  max_players = 20;
  online_motd = codes "hi";
  version_name = codes "1.21.5";
  server_properties = none;
}

braces_utf8 : is_utf8 (codes "{}") ≡ true
unfolding is_utf8
braces_utf8 = refl

channel_utf8 : is_utf8 (codes "a:b") ≡ true
unfolding is_utf8
channel_utf8 = refl
