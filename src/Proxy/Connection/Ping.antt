-- ===== src/Proxy/Connection/Ping.antt =====
-- What a client reads of a status exchange.
use redoxide.Common.{◌+◌, ◌≤◌, ◌≡◌, refl, ap, Bool, true, Bytes, [], ◌++◌, length, arith}
use redoxide.Outcome.{Error, Result, ok, err, panic}
use redoxide.Protocol.Varint.Encode.{length-encode_varint-le}
use redoxide.Protocol.Packet.{max_packet_len, encode_packet, read_packet, RawPacket}
use redoxide.Protocol.Packet.Framing.{read_packet-encode_packet}
use redoxide.Config.{Config}
use redoxide.Protocol.Handshake.{Handshake, parse_handshake}
use redoxide.Proxy.Connection.{
  to_ping, dispatch, by_packet, by_address, by_state, handle_ping, answer_status, answer_ping,
  status_response,
}
use redoxide.State.{SharedState}
use redoxide.Status.{Json}

pub request_read :
    (rest : Bytes)
    → read_packet (encode_packet 0 [] ++ rest)
      ≡ ok ((record { id = 0; contents = [] }, encode_packet 0 []), rest)
request_read rest =
    read_packet-encode_packet 0 [] rest (omega arith)
      (omega (arith, length-encode_varint-le 4 0 (omega arith)))

-- A status request and a ping of at most the frame's size are answered by the status of the
-- current state and the ping as it was sent, whatever the client sends behind it.
pub ping_echo :
    (to_string : Json → Bytes) (s : SharedState) (payload rest : Bytes)
    → length payload + 5 ≤ max_packet_len
    → handle_ping to_string true true s (encode_packet 0 [] ++ (encode_packet 1 payload ++ rest))
      ≡ record { written = status_response to_string s ++ encode_packet 1 payload; outcome = ok tt }
unfolding handle_ping answer_status answer_ping
ping_echo to_string s payload rest fits =
    let second =
      read_packet-encode_packet 1 payload rest (omega arith)
        (omega (arith, length-encode_varint-le 4 1 (omega arith))) in
    rw (request_read (encode_packet 1 payload ++ rest), second) refl

-- A client that asks for the status, and then sends no packet that can be read, gets the status
-- alone; that is no error.
pub status_alone :
    (to_string : Json → Bytes) (writes : Bool) (s : SharedState) (rest : Bytes) (e : Error)
    → read_packet rest ≡ err e
    → handle_ping to_string true writes s (encode_packet 0 [] ++ rest)
      ≡ record { written = status_response to_string s; outcome = ok tt }
unfolding handle_ping answer_status answer_ping
status_alone to_string writes s rest e ends = rw (request_read rest, ends) refl

module _ (to_lowercase : Bytes → Bytes) (config : Config) where
  by_address-to_ping :
      (raw left : Bytes) {rest : Bytes} (r : Result Handshake)
      → by_address to_lowercase config raw left r ≡ to_ping rest
      → left ≡ rest
  unfolding by_address by_state
  by_address-to_ping raw left (err e) h = cc
  by_address-to_ping raw left panic h = cc
  by_address-to_ping raw left (ok hs) h = ground arith

  by_packet-to_ping :
      {rest : Bytes} (r : Result ((RawPacket × Bytes) × Bytes))
      → by_packet to_lowercase config r ≡ to_ping rest
      → (p : RawPacket) × (raw : Bytes) × (r ≡ ok ((p, raw), rest))
  unfolding by_packet
  by_packet-to_ping (err e) h = cc
  by_packet-to_ping panic h = cc
  by_packet-to_ping (ok ((p, raw), left)) h = (
    p,
    raw,
    ap (λ s. ok ((p, raw), s)) (by_address-to_ping raw left (parse_handshake p.contents) h),
  )

  -- A status exchange works on what the handshake's packet left.
  pub dispatch-to_ping :
      (stream : Bytes) {rest : Bytes}
      → dispatch to_lowercase config stream ≡ to_ping rest
      → (p : RawPacket) × (raw : Bytes) × (read_packet stream ≡ ok ((p, raw), rest))
  unfolding dispatch
  dispatch-to_ping stream h = by_packet-to_ping (read_packet stream) h
