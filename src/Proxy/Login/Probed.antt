-- ===== src/Proxy/Login/Probed.antt =====
-- The proxy probed by another proxy: probe_server_version against handle_connection.
use redoxide.Common.{
  ◌≡◌, ◌≤◌, refl, ap, ◌∙◌, true, false, Bytes, [], ◌++◌, append-nil, some, length,
}
use redoxide.Common.Utf8.{is_utf8}
use redoxide.Config.Text.{same_text}
use redoxide.Outcome.{ok, err, unexpected_eof}
use redoxide.Protocol.Handshake.Parse.{HasNoNul}
use redoxide.Protocol.Packet.{max_string_len, as_i32, read_packet, encode_packet}
use redoxide.Protocol.Varint.{IsI32, read_varint}
use redoxide.Proxy.Connection.{
  handle_ping, dispatch, motd_for, effective_status, status_response, to_ping,
}
use redoxide.Proxy.Connection.Ping.{status_alone}
use redoxide.Proxy.Login.{Course, handle_connection, handle_connection_inner, with_dispatch, logged}
use redoxide.Proxy.Probe.{JsonReader, probe_host, probe_request, probe_reply}
use redoxide.Proxy.Probe.Exchange.{ReadsBack, probe_request-to_ping, probe_reply-status}
use redoxide.State.{SharedState, protocol_version, version_name}
use redoxide.Status.{Json, build_status_json}
use redoxide.VersionCache.{CacheFormat, CacheDir}

-- The text of the status that a state shows.
abbrev pub shown_text : (Json → Bytes) → SharedState → Bytes
shown_text to_string s =
    build_status_json to_string (motd_for s.server s.config.status.online_motd) (effective_status s)
      (as_i32 s.player_count)

nothing_read : read_packet [] ≡ err unexpected_eof
unfolding read_packet read_varint
nothing_read = refl

-- The host of the target is one that the proxy takes for its own.
pub record Targets (to_lowercase : Bytes → Bytes) (c : Course) (target : Bytes) : Type 0 where
  pub host_plain : HasNoNul (probe_host target)
  pub host_utf8 : is_utf8 (probe_host target) ≡ true
  pub host_fits : length (probe_host target) ≤ max_string_len
  pub expected :
      same_text
        (to_lowercase (probe_host target))
        (to_lowercase c.shared.config.proxy.server_address)
      ≡ true

request-to_ping :
    (to_lowercase : Bytes → Bytes) (c : Course) (target : Bytes)
    → Targets to_lowercase c target
    → dispatch to_lowercase c.shared.config (probe_request target)
      ≡ to_ping (encode_packet 0 [] ++ [])
request-to_ping to_lowercase c target t = rw (append-nil (probe_request target)) at (
    probe_request-to_ping to_lowercase c.shared.config target [] t.host_plain t.host_utf8
      t.host_fits t.expected)

module _ (to_string : Json → Bytes) (format : CacheFormat) (dir : CacheDir)
    (to_lowercase : Bytes → Bytes) where
  -- A proxy that is probed under its configured address answers with the version that its state
  -- shows, also while its server is down, and the probe learns just that, when the status can be
  -- written and the JSON library reads back what it printed; nothing reaches the server, and the
  -- container is not started.
  pub handle_connection-probe_reply :
      (json : JsonReader) (c : Course) (target : Bytes)
      → Targets to_lowercase c target
      → c.writes_status ≡ true
      → length (shown_text to_string c.shared) ≤ max_string_len
      → IsI32 (protocol_version c.shared)
      → ReadsBack json (shown_text to_string c.shared) (effective_status c.shared)
      → let s = handle_connection to_string format dir to_lowercase c (probe_request target) in
        (probe_reply json s.to_client ≡ some (protocol_version c.shared, version_name c.shared))
        × (s.to_server ≡ [])
        × (s.starts ≡ false)
        × (s.ended ≡ some (ok tt))
  unfolding handle_connection handle_connection_inner with_dispatch logged status_response
      effective_status
  handle_connection-probe_reply json c target t w l p r =
      let served =
        ap (λ b. handle_ping to_string b c.writes_ping c.shared (encode_packet 0 [] ++ [])) w
        ∙ status_alone to_string c.writes_ping c.shared [] unexpected_eof nothing_read in
      let reads = rw (append-nil (status_response to_string c.shared)) at (
        probe_reply-status to_string json
          (motd_for c.shared.server c.shared.config.status.online_motd) (effective_status c.shared)
          (as_i32 c.shared.player_count) [] l p r) in
      rw (request-to_ping to_lowercase c target t, served) (reads, refl, refl, refl)
