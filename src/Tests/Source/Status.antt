-- ===== src/Tests/Source/Status.antt =====
-- The tests of src/status.rs. The printer is the library's; a test that reads its text back looks
-- at the value that is printed.
use redoxide.Common.{
  ℕ, Bool, true, false, not, ◌&&◌, ◌≡◌, refl, ◌==◌, ltb, length, if◌then◌else◌, Bytes, none,
}
use redoxide.Config.{codes, StatusConfig}
use redoxide.Config.Text.{same_text}
use redoxide.Protocol.Packet.{encode_packet, encode_string}
use redoxide.Protocol.Varint.{encode_varint}
use redoxide.Proxy.Forward.{is_empty}
use redoxide.Status.{
  Json, number, string, object, Fields, end, field, status_value, encode_login_disconnect,
  encode_login_plugin_request, reason_value,
}
use redoxide.Tests.Fixture.{print_json}

abbrev test_cfg : StatusConfig
test_cfg = record {
  protocol_version = 769;
  max_players = 20;
  online_motd = codes "Online";
  version_name = codes "1.21.4";
  server_properties = none;
}

-- The index of a `serde_json` value by a key, which yields Null on a miss; here no value equals it.
abbrev look_up : Bytes → Fields → Json
look_up k end = object end
look_up k (field key v fs) = let rest = look_up k fs in if same_text k key then v else rest

abbrev index : Json → Bytes → Json
index (object fs) k = look_up k fs
index j k = object end

abbrev is_number : Json → ℕ → Bool
is_number (number n) m = n == m
is_number j m = false

abbrev is_text : Json → Bytes → Bool
is_text (string s) t = same_text s t
is_text j t = false

abbrev test_status_json_is_valid : Bool
test_status_json_is_valid =
    let parsed = status_value (codes "Hello world") test_cfg 0 in
    is_number (index (index parsed (codes "version")) (codes "protocol")) 769
    && is_number (index (index parsed (codes "players")) (codes "max")) 20
    && is_text (index (index parsed (codes "description")) (codes "text")) (codes "Hello world")

status_json : test_status_json_is_valid ≡ true
unfolding status_value same_text
status_json = refl

abbrev test_login_disconnect_json : (Json → Bytes) → Bool
test_login_disconnect_json to_string =
    not (is_empty (encode_login_disconnect to_string (codes "Server offline")))

disconnect_json : test_login_disconnect_json print_json ≡ true
unfolding encode_login_disconnect encode_packet encode_string encode_varint reason_value
disconnect_json = refl

abbrev test_login_plugin_request_packet_id : Bool
test_login_plugin_request_packet_id =
    ltb 2 (length (encode_login_plugin_request 1 (codes "redoxide:keepalive")))

plugin_request : test_login_plugin_request_packet_id ≡ true
unfolding encode_login_plugin_request encode_packet encode_string encode_varint
plugin_request = refl
