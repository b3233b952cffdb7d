-- ===== src/Proxy/Login/Complete.antt =====
-- A connection that goes through, from its handshake to the end of the forwarding.
use redoxide.Common.{
  ℕ, ◌+◌, ◌≤◌, ◌≡◌, refl, true, false, Bytes, List, [], ◌∷◌, ◌++◌, some, All, length, length-append,
  arith,
}
use redoxide.Common.Utf8.{is_utf8}
use redoxide.Config.{Config}
use redoxide.Config.Text.{same_text}
use redoxide.Outcome.{ok}
use redoxide.Protocol.Varint.{IsI32, encode_varint}
use redoxide.Protocol.Varint.Encode.{length-encode_varint-le}
use redoxide.Protocol.Packet.{
  RawPacket, max_packet_len, max_string_len, encode_packet, encode_string,
}
use redoxide.Protocol.Packet.Framing.{read_packet-encode_packet}
use redoxide.Protocol.Packet.Strings.{length-encode_string}
use redoxide.Protocol.Handshake.Parse.{
  HasNoNul, handshake_bytes, parse_handshake-handshake_bytes_plain, parse_login_start-encode_string,
}
use redoxide.Proxy.Connection.{
  to_login, dispatch, by_packet, by_address, by_state, named, login_start, read_login_start,
}
use redoxide.Proxy.Forward.Completion.{fine, copies_of, forward_completes}
use redoxide.Proxy.Login.{
  Course, await_stop, after_wait, join_server, start_server, with_login_start, handle_login,
  with_dispatch, handle_connection_inner, handle_connection, logged,
}
use redoxide.Proxy.Wait.{wait_for_server_with}
use redoxide.Proxy.Wait.Keepalive.{queries}
use redoxide.Proxy.Wait.Fair.{sends, Fits, Fair, asked}
use redoxide.Proxy.Wait.Fair.Ends.{wait_fair}
use redoxide.State.{is_stopped, is_running_state}
use redoxide.Status.{Json}
use redoxide.VersionCache.{CacheFormat, CacheDir}

-- A player's client: what its handshake and its login start say, with the part of the login start
-- that depends on the version.
pub record Player : Type 0 where
  pub protocol : ℕ
  pub host : Bytes
  pub port_hi : ℕ
  pub port_lo : ℕ
  pub name : Bytes
  pub extra : Bytes

abbrev pub hello_of : Player → Bytes
hello_of p = encode_packet 0 (handshake_bytes p.protocol p.host p.port_hi p.port_lo 2 [])

abbrev pub start_of : Player → Bytes
start_of p = encode_packet 0 (encode_string p.name ++ p.extra)

-- Both packets are well formed.
pub record IsPlayer (p : Player) : Type 0 where
  pub protocol_fits : IsI32 p.protocol
  pub host_plain : HasNoNul p.host
  pub host_utf8 : is_utf8 p.host ≡ true
  pub host_fits : length p.host ≤ max_string_len
  pub name_utf8 : is_utf8 p.name ≡ true
  pub name_fits : length p.name ≤ max_string_len
  pub extra_fits : length p.extra ≤ max_string_len

-- A course in which the container boots while the client sends `ps`, which answer its queries, and
-- nothing fails.
pub record Boots (c : Course) (ps : List RawPacket) (rest : Bytes) : Type 0 where
  pub stop_over : await_stop c.stops ≡ true
  pub not_up : is_running_state c.at_look ≡ false
  pub not_down : is_stopped c.shared.server ≡ false
  pub packets_fit : All Fits ps
  pub schedule : Fair 0 c.rounds ps
  pub connected : c.link ≡ fine
  pub copied : c.events ≡ copies_of rest c.server

module _ (p : Player) (v : IsPlayer p) where
  hello_fits :
      length (encode_varint 0) + length (handshake_bytes p.protocol p.host p.port_hi p.port_lo 2 [])
      ≤ max_packet_len
  hello_fits = omega (
    arith,
    v.host_fits,
    v.protocol_fits,
    length-append (encode_varint p.protocol)
        (encode_string p.host ++ (p.port_hi ∷ p.port_lo ∷ (encode_varint 2 ++ []))),
    length-append (encode_string p.host) (p.port_hi ∷ p.port_lo ∷ (encode_varint 2 ++ [])),
    length-append (encode_varint 2) [],
    length-encode_string p.host,
    length-encode_varint-le 4 p.protocol (omega (arith, v.protocol_fits)),
    length-encode_varint-le 4 0 (omega arith),
    length-encode_varint-le 4 2 (omega arith),
  )

  start_fits : length (encode_varint 0) + length (encode_string p.name ++ p.extra) ≤ max_packet_len
  start_fits = omega (
    arith,
    v.name_fits,
    v.extra_fits,
    length-append (encode_string p.name) p.extra,
    length-encode_string p.name,
    length-encode_varint-le 4 0 (omega arith),
  )

  pub hello_dispatched :
      (to_lowercase : Bytes → Bytes) (config : Config) (rest : Bytes)
      → same_text (to_lowercase p.host) (to_lowercase config.proxy.server_address) ≡ true
      → dispatch to_lowercase config (hello_of p ++ rest)
        ≡ to_login
            (record { protocol_version = p.protocol; server_address = p.host; next_state = 2 })
            (hello_of p)
            rest
  unfolding dispatch by_packet by_address by_state
  hello_dispatched to_lowercase config rest same =
      rw
        (
          read_packet-encode_packet 0 (handshake_bytes p.protocol p.host p.port_hi p.port_lo 2 [])
              rest (omega arith) hello_fits,
          parse_handshake-handshake_bytes_plain p.protocol p.host p.port_hi p.port_lo 2 []
              v.protocol_fits v.host_plain v.host_utf8 v.host_fits (omega arith),
          same,
        )
        refl

  pub start_read :
      (rest : Bytes)
      → read_login_start (start_of p ++ rest)
        ≡ ok (record { username = p.name; login_raw = start_of p; rest = rest })
  unfolding read_login_start login_start named
  start_read rest =
      rw
        (
          read_packet-encode_packet 0 (encode_string p.name ++ p.extra) rest (omega arith)
              start_fits,
          parse_login_start-encode_string p.name p.extra v.name_utf8 v.name_fits,
        )
        refl

module _ (to_string : Json → Bytes) (format : CacheFormat) (dir : CacheDir) where
  after_wait_complete :
      (c : Course) (p : Player) (ps : List RawPacket) (rest : Bytes)
      → Boots c ps rest
      → after_wait c
          (hello_of p)
          (record { username = p.name; login_raw = start_of p; rest = sends ps rest })
          (wait_for_server_with to_string format dir c.rounds c.shared (sends ps rest))
        ≡ record {
          to_client = queries (asked c.rounds) ++ c.server;
          to_server = hello_of p ++ (start_of p ++ rest);
          starts = false;
          ended = some (ok tt);
        }
  unfolding after_wait
  after_wait_complete c p ps rest b =
      let (w, e, left, sent, written) =
        wait_fair to_string format dir rest c.shared c.rounds ps b.not_down b.packets_fit
          b.schedule in
      let done = forward_completes (hello_of p) (start_of p) rest c.server in
      rw (e, b.connected, b.copied, left, written, done) refl

  -- A player whose two packets are well formed, and who then answers each keepalive query behind it,
  -- with whatever other packets in between, gets through while the container boots, in whatever
  -- order queries, reads, probes and state changes come, if they are in time, tear no read and come
  -- to one that finds the server ready: the server gets the handshake, the login start and exactly
  -- what the client sends behind the packets that the wait reads (which are `ps`: those of its
  -- rounds, and then the rest up to the last answer), the client gets the queries and then exactly
  -- what the server sends, the connection ends well, and it started the container if that was
  -- Stopped.
  pub connection_completes :
      (to_lowercase : Bytes → Bytes) (c : Course) (p : Player) (ps : List RawPacket) (rest : Bytes)
      → IsPlayer p
      → same_text (to_lowercase p.host) (to_lowercase c.shared.config.proxy.server_address) ≡ true
      → Boots c ps rest
      → handle_connection to_string format dir to_lowercase c
          (hello_of p ++ (start_of p ++ sends ps rest))
        ≡ record {
          to_client = queries (asked c.rounds) ++ c.server;
          to_server = hello_of p ++ (start_of p ++ rest);
          starts = is_stopped c.at_check;
          ended = some (ok tt);
        }
  unfolding handle_connection handle_connection_inner with_dispatch handle_login with_login_start
      start_server join_server logged
  connection_completes to_lowercase c p ps rest v same b =
      rw
        (
          hello_dispatched p v to_lowercase c.shared.config (start_of p ++ sends ps rest) same,
          start_read p v (sends ps rest),
          b.stop_over,
          b.not_up,
          after_wait_complete c p ps rest b,
        )
        refl
