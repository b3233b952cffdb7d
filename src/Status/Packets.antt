-- ===== src/Status/Packets.antt =====
-- What a client reads from the packets that the proxy sends.
use redoxide.Common.{
  ℕ, ◌+◌, ◌≤◌, ◌≡◌, true, Bytes, [], refl, ◌++◌, append-nil, length, length-append, arith,
}
use redoxide.Common.Utf8.{is_utf8}
use redoxide.Config.{StatusConfig}
use redoxide.Outcome.{ok}
use redoxide.Protocol.Varint.{IsI32, read_varint_sync, encode_varint}
use redoxide.Protocol.Varint.Encode.{length-encode_varint-le}
use redoxide.Protocol.Varint.RoundTrip.{read_varint_sync-encode_varint}
use redoxide.Protocol.Packet.{
  RawPacket, max_packet_len, max_string_len, encode_packet, encode_string, read_packet,
  read_string_sync,
}
use redoxide.Protocol.Packet.Framing.{read_packet-encode_packet}
use redoxide.Protocol.Packet.Strings.{read_string_sync-encode_string, length-encode_string}
use redoxide.Status.{
  Json, reason_value, build_status_json, encode_status_response, encode_login_disconnect,
  encode_login_plugin_request,
}

-- A client finds one packet with the given id, whose contents are one string, and nothing behind.
pub record HoldsString (bytes : Bytes) (id : ℕ) (s : Bytes) : Type 0 where
  pub packet : RawPacket
  pub reads : (rest : Bytes) → read_packet (bytes ++ rest) ≡ ok ((packet, bytes), rest)
  pub id_is : packet.id ≡ id
  pub string_is : read_string_sync packet.contents ≡ ok (s, [])

encode_string-alone :
    (s : Bytes)
    → is_utf8 s ≡ true
    → length s ≤ max_string_len
    → read_string_sync (encode_string s) ≡ ok (s, [])
encode_string-alone s u l =
    rw (append-nil (encode_string s)) at (read_string_sync-encode_string s [] u l)

string_packet-HoldsString :
    (id : ℕ) (s : Bytes)
    → IsI32 id
    → is_utf8 s ≡ true
    → length s ≤ max_string_len
    → HoldsString (encode_packet id (encode_string s)) id s
string_packet-HoldsString id s i u l = record {
  packet = record { id = id; contents = encode_string s };
  reads = λ rest.
      read_packet-encode_packet id (encode_string s) rest i
        (omega (arith, length-encode_string s, length-encode_varint-le 4 id (omega arith)));
  id_is = refl;
  string_is = encode_string-alone s u l;
}

module _ (to_string : Json → Bytes) where
  -- If the JSON text of the status is UTF-8 and fits a string, a client reads from the status
  -- response one packet with id 0 that holds this text, whatever bytes follow.
  pub encode_status_response-HoldsString :
      (motd : Bytes) (cfg : StatusConfig) (online : ℕ)
      → is_utf8 (build_status_json to_string motd cfg online) ≡ true
      → length (build_status_json to_string motd cfg online) ≤ max_string_len
      → HoldsString
          (encode_status_response to_string motd cfg online)
          0
          (build_status_json to_string motd cfg online)
  unfolding encode_status_response
  encode_status_response-HoldsString motd cfg online u l =
      string_packet-HoldsString 0 _ (omega arith) u l

  -- If the JSON text of a reason is UTF-8 and fits a string, a client reads from the disconnect
  -- packet one packet with id 0 that holds this text, whatever bytes follow.
  pub encode_login_disconnect-HoldsString :
      (reason : Bytes)
      → is_utf8 (to_string (reason_value reason)) ≡ true
      → length (to_string (reason_value reason)) ≤ max_string_len
      → HoldsString (encode_login_disconnect to_string reason) 0 (to_string (reason_value reason))
  unfolding encode_login_disconnect
  encode_login_disconnect-HoldsString reason u l = string_packet-HoldsString 0 _ (omega arith) u l

-- A client reads from the keepalive query one packet with id 4, and from its contents the message
-- id and the channel, if the channel is UTF-8 and fits a string.
pub encode_login_plugin_request_lem :
    (message_id : ℕ) (channel rest : Bytes)
    → IsI32 message_id
    → is_utf8 channel ≡ true
    → length channel ≤ max_string_len
    → let contents = encode_varint message_id ++ encode_string channel in
      (read_packet (encode_login_plugin_request message_id channel ++ rest)
        ≡ ok (
          (record { id = 4; contents = contents }, encode_login_plugin_request message_id channel),
          rest,
        ))
      × (read_varint_sync contents ≡ ok (message_id, encode_string channel))
      × (read_string_sync (encode_string channel) ≡ ok (channel, []))
unfolding encode_login_plugin_request
encode_login_plugin_request_lem message_id channel rest i u l =
    let contents : Bytes = encode_varint message_id ++ encode_string channel in
    let fits : length (encode_varint 4) + length contents ≤ max_packet_len = omega (
      arith,
      length-append (encode_varint message_id) (encode_string channel),
      length-encode_string channel,
      length-encode_varint-le 4 message_id (omega arith),
      length-encode_varint-le 4 4 (omega arith),
    ) in
    (
      read_packet-encode_packet 4 contents rest (omega arith) fits,
      read_varint_sync-encode_varint message_id (encode_string channel) i,
      encode_string-alone channel u l,
    )
