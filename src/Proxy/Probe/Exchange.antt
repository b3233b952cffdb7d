-- ===== src/Proxy/Probe/Exchange.antt =====
-- A probe of a proxy of this kind: the request is a handshake for the status, and the answer is
-- read back.
use redoxide.Common.{
  ℕ, ◌+◌, ◌-◌, ◌/◌, ◌%◌, ◌^◌, ◌≤◌, ◌≡◌, refl, true, Bytes, [], ◌∷◌, ◌++◌, append_assoc, append-nil,
  some, length, take, length-append, take-append, drop-append, arith,
}
use redoxide.Common.Utf8.{is_utf8}
use redoxide.Config.{Config, StatusConfig, codes}
use redoxide.Config.Text.{same_text}
use redoxide.Protocol.Varint.{IsI32, read_varint_sync, encode_varint}
use redoxide.Protocol.Varint.Encode.{length-encode_varint-le}
use redoxide.Protocol.Varint.RoundTrip.{read_varint_sync-encode_varint}
use redoxide.Protocol.Packet.{max_string_len, max_packet_len, encode_packet, encode_string}
use redoxide.Protocol.Packet.Framing.{read_packet-encode_packet}
use redoxide.Protocol.Packet.Strings.{length-encode_string, encode_string_short}
use redoxide.Protocol.Handshake.Parse.{HasNoNul, parse_handshake-handshake_bytes_plain}
use redoxide.Proxy.Connection.{to_ping, dispatch, by_packet, by_address, by_state}
use redoxide.Proxy.Probe.{
  JsonReader, probe_host, probe_port, probe_request, probe_reply, probe_packet, status_json,
  parse_range, version_of, named_version, get_range, as_usize,
}
use redoxide.Status.{Json, build_status_json, encode_status_response}

-- The handshake of a probe is dispatched to the status exchange with the status request ahead,
-- by a proxy whose configured address is the host that the probe names; the host is UTF-8, has no
-- NUL in it, and fits a string.
pub probe_request-to_ping :
    (to_lowercase : Bytes → Bytes) (config : Config) (target rest : Bytes)
    → HasNoNul (probe_host target)
    → is_utf8 (probe_host target) ≡ true
    → length (probe_host target) ≤ max_string_len
    → same_text (to_lowercase (probe_host target)) (to_lowercase config.proxy.server_address) ≡ true
    → dispatch to_lowercase config (probe_request target ++ rest)
      ≡ to_ping (encode_packet 0 [] ++ rest)
unfolding probe_request dispatch by_packet by_address by_state
probe_request-to_ping to_lowercase config target rest nul u l same =
    let host = probe_host target in
    let port = probe_port target in
    let hs_data : Bytes =
      encode_varint 0 ++ (encode_string host ++ (port / 256 ∷ port % 256 ∷ encode_varint 1)) in
    let fits : length (encode_varint 0) + length hs_data ≤ max_packet_len = omega (
      arith,
      length-append (encode_varint 0)
          (encode_string host ++ (port / 256 ∷ port % 256 ∷ encode_varint 1)),
      length-append (encode_string host) (port / 256 ∷ port % 256 ∷ encode_varint 1),
      length-encode_string host,
      length-encode_varint-le 4 0 (omega arith),
      length-encode_varint-le 4 1 (omega arith),
    ) in
    let first =
      read_packet-encode_packet 0 hs_data (encode_packet 0 [] ++ rest) (omega arith) fits in
    let parsed = rw (append-nil (encode_varint 1)) at (
      parse_handshake-handshake_bytes_plain 0 host (port / 256) (port % 256) 1 [] (omega arith) nul
        u l (omega arith)) in
    rw (append_assoc (encode_packet 0 hs_data) (encode_packet 0 []) rest)
      (rw first (rw parsed (rw same refl)))

-- The range behind a header of at most five bytes is what follows the header.
get_range-behind :
    (header s : Bytes)
    → length header ≤ 5
    → length s ≤ max_string_len
    → let contents : Bytes = header ++ s in
      let start = length contents - length s in
      get_range start ((start + as_usize (length s)) % 2 ^ 64) contents ≡ some s
unfolding get_range as_usize
get_range-behind header s h l =
    let sum = length-append header s in
    let start : length (header ++ s) - length s ≡ length header = omega (arith, sum) in
    let end : (length header + length s) % 2 ^ 64 ≡ length header + length s = omega arith in
    let size : length header + length s - length header ≡ length s = omega arith in
    let whole : take (length s) s ≡ s = rw (append-nil s) at (take-append s []) in
    rw start (ground (arith, sum, end, size, whole, take-append s [], drop-append header s))

-- A library that reads back the version in the status that it printed.
pub record ReadsBack (json : JsonReader) (text : Bytes) (cfg : StatusConfig) : Type 0 where
  pub value : json.Value
  pub parses : json.from_slice text ≡ some value
  pub protocol_is :
      json.as_i64 (json.index (json.index value (codes "version")) (codes "protocol"))
      ≡ some cfg.protocol_version
  pub name_is :
      json.as_str (json.index (json.index value (codes "version")) (codes "name"))
      ≡ some cfg.version_name

version_of-ReadsBack :
    (json : JsonReader) (text : Bytes) (cfg : StatusConfig)
    → IsI32 cfg.protocol_version
    → ReadsBack json text cfg
    → parse_range json (some text) ≡ some (cfg.protocol_version, cfg.version_name)
unfolding parse_range version_of named_version
version_of-ReadsBack json text cfg p r = rw (r.parses, r.protocol_is, r.name_is) (ground arith)

status_json-encode_string :
    (json : JsonReader) (text : Bytes) (cfg : StatusConfig)
    → length text ≤ max_string_len
    → IsI32 cfg.protocol_version
    → ReadsBack json text cfg
    → status_json json (encode_string text) (read_varint_sync (encode_string text))
      ≡ some (cfg.protocol_version, cfg.version_name)
unfolding status_json
status_json-encode_string json text cfg l p r =
    let header = encode_varint (length text) in
    rw (encode_string_short text l) (
      rw (read_varint_sync-encode_varint (length text) text (omega arith)) (
        rw (get_range-behind header text (length-encode_varint-le 4 (length text) (omega arith)) l)
          (version_of-ReadsBack json text cfg p r)))

-- When the JSON library reads back what it printed, a probe of a proxy learns the protocol and the
-- version name that the proxy shows, if the text fits a string and the protocol is an i32.
pub probe_reply-status :
    (to_string : Json → Bytes) (json : JsonReader) (motd : Bytes) (cfg : StatusConfig) (online : ℕ)
    (rest : Bytes)
    → length (build_status_json to_string motd cfg online) ≤ max_string_len
    → IsI32 cfg.protocol_version
    → ReadsBack json (build_status_json to_string motd cfg online) cfg
    → probe_reply json (encode_status_response to_string motd cfg online ++ rest)
      ≡ some (cfg.protocol_version, cfg.version_name)
unfolding probe_reply probe_packet encode_status_response
probe_reply-status to_string json motd cfg online rest l p r =
    let text = build_status_json to_string motd cfg online in
    let fits : length (encode_varint 0) + length (encode_string text) ≤ max_packet_len =
      omega (arith, length-encode_string text, length-encode_varint-le 4 0 (omega arith)) in
    rw (read_packet-encode_packet 0 (encode_string text) rest (omega arith) fits)
      (status_json-encode_string json text cfg l p r)
