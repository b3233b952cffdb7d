-- ===== src/Tests/Source/Handshake.antt =====
-- The tests of src/protocol/handshake.rs.
use redoxide.Common.{ℕ, ◌/◌, ◌%◌, Bool, true, ◌&&◌, ◌≡◌, refl, ◌==◌, Bytes, [], ◌∷◌, ◌++◌}
use redoxide.Common.Utf8.{is_utf8}
use redoxide.Config.{codes}
use redoxide.Config.Text.{same_text}
use redoxide.Protocol.Varint.{encode_varint, read_varint_sync}
use redoxide.Protocol.Packet.{encode_string, read_string_sync}
use redoxide.Protocol.Handshake.{parse_handshake, parse_login_start, before_nul}
use redoxide.Tests.Source.{unwrap}

-- `u16::to_be_bytes` of the port
abbrev make_handshake_bytes : ℕ → Bytes → ℕ → ℕ → Bytes
make_handshake_bytes protocol addr port state =
    encode_varint protocol
    ++ (encode_string addr ++ (port / 256 ∷ port % 256 ∷ encode_varint state))

abbrev test_parse_handshake_login : Bool
test_parse_handshake_login =
    unwrap (parse_handshake (make_handshake_bytes 769 (codes "forbidden.samlo.cloud") 25565 2))
      (λ hs.
        hs.protocol_version == 769
        && same_text hs.server_address (codes "forbidden.samlo.cloud")
        && hs.next_state == 2)

parses_handshake : test_parse_handshake_login ≡ true
unfolding encode_string encode_varint parse_handshake read_string_sync read_varint_sync same_text
    is_utf8 before_nul
parses_handshake = refl

abbrev test_parse_handshake_strips_forge_marker_for_validation_only : Bool
test_parse_handshake_strips_forge_marker_for_validation_only =
    unwrap
      (parse_handshake (
        make_handshake_bytes 769 (codes "forbidden.samlo.cloud" ++ (0 ∷ codes "FML2" ++ (0 ∷ [])))
          25565 1))
      (λ hs. same_text hs.server_address (codes "forbidden.samlo.cloud"))

strips_marker : test_parse_handshake_strips_forge_marker_for_validation_only ≡ true
unfolding encode_string encode_varint parse_handshake read_string_sync read_varint_sync same_text
    is_utf8 before_nul
strips_marker = refl

abbrev test_parse_login_start_1_13_style_no_tail : Bool
test_parse_login_start_1_13_style_no_tail =
    unwrap (parse_login_start (encode_string (codes "Notch")))
      (λ username. same_text username (codes "Notch"))

no_tail : test_parse_login_start_1_13_style_no_tail ≡ true
unfolding encode_string encode_varint parse_login_start read_string_sync read_varint_sync same_text
    is_utf8
no_tail = refl

abbrev uuid : Bytes
uuid = 1 ∷ 2 ∷ 3 ∷ 4 ∷ 5 ∷ 6 ∷ 7 ∷ 8 ∷ 9 ∷ 10 ∷ 11 ∷ 12 ∷ 13 ∷ 14 ∷ 15 ∷ 16 ∷ []

abbrev test_parse_login_start_1_20_2_style_with_uuid_tail : Bool
test_parse_login_start_1_20_2_style_with_uuid_tail =
    unwrap (parse_login_start (encode_string (codes "Notch") ++ uuid))
      (λ username. same_text username (codes "Notch"))

uuid_tail : test_parse_login_start_1_20_2_style_with_uuid_tail ≡ true
unfolding encode_string encode_varint parse_login_start read_string_sync read_varint_sync same_text
    is_utf8
uuid_tail = refl

abbrev test_parse_login_start_arbitrary_tail_length : Bool
test_parse_login_start_arbitrary_tail_length =
    unwrap (parse_login_start (encode_string (codes "Notch") ++ (0xab ∷ 0xcd ∷ 0xef ∷ [])))
      (λ username. same_text username (codes "Notch"))

any_tail : test_parse_login_start_arbitrary_tail_length ≡ true
unfolding encode_string encode_varint parse_login_start read_string_sync read_varint_sync same_text
    is_utf8
any_tail = refl
