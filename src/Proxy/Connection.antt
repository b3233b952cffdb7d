-- ===== src/Proxy/Connection.antt =====
-- handle_connection_inner, handle_ping, and the reads of handle_login, of src/proxy.rs.
pub mod Ping
pub mod Relay
use redoxide.Common.{
  ℕ, ◌+◌, Bool, true, false, not, Bytes, [], ◌∷◌, ◌++◌, Option, none, some, ◌==◌, if◌then◌else◌,
}
use redoxide.Config.{Config, StatusConfig, codes}
use redoxide.Config.Text.{same_text}
use redoxide.Outcome.{
  Error, Result, ok, err, panic, unexpected_packet, unknown_next_state, write_failed,
  connection_failed,
}
use redoxide.Protocol.Handshake.{Handshake, parse_handshake, parse_login_start}
use redoxide.Protocol.Packet.{RawPacket, read_packet, as_i32}
use redoxide.State.{
  ServerState, stopped, starting, running, stopping, SharedState, protocol_version, version_name,
}
use redoxide.Status.{Json, encode_status_response}

-- What a handler wrote to the client, and how it ended.
pub record Served : Type 0 where
  pub written : Bytes
  pub outcome : Result (Unit {0})

-- The motd with a note behind it; the paragraph sign is two bytes.
noted : Bytes → Bytes → Bytes
noted motd note = motd ++ (b' ' ∷ 0xc2 ∷ 0xa7 ∷ b'7' ∷ note)

pub motd_for : ServerState → Bytes → Bytes
unfolding noted
motd_for stopped motd = motd
motd_for starting motd = noted motd (codes "(starting...)")
motd_for running motd = motd
motd_for stopping motd = noted motd (codes "(stopping...)")

-- The configured status with the detected version.
unfoldable pub effective_status : SharedState → StatusConfig
effective_status s = record s.config.status {
  protocol_version = protocol_version s;
  version_name = version_name s;
}

-- The second packet is sent back as it was relayed; that it does not come is no error.
unfoldable pub answer_ping : Bool → Bytes → Result ((RawPacket × Bytes) × Bytes) → Served
answer_ping writes written (err e) = record { written = written; outcome = ok tt }
answer_ping writes written panic = record { written = written; outcome = panic }
answer_ping writes written (ok ((ping, raw), rest)) =
    if not (ping.id == 0x01)
    then record { written = written; outcome = err unexpected_packet }
    else if writes
    then record { written = written ++ raw; outcome = ok tt }
    else record { written = written; outcome = err write_failed }

module _ (to_string : Json → Bytes) where
  unfoldable pub status_response : SharedState → Bytes
  status_response s =
      encode_status_response to_string (motd_for s.server s.config.status.online_motd)
        (effective_status s) (as_i32 s.player_count)

  unfoldable pub answer_status :
      Bool → Bool → SharedState → Result ((RawPacket × Bytes) × Bytes) → Served
  unfolding answer_ping
  answer_status writes_status writes_ping s (err e) = record { written = []; outcome = err e }
  answer_status writes_status writes_ping s panic = record { written = []; outcome = panic }
  answer_status writes_status writes_ping s (ok ((request, raw), rest)) =
      if not (request.id == 0x00)
      then record { written = []; outcome = err unexpected_packet }
      else if writes_status
      then answer_ping writes_ping (status_response s) (read_packet rest)
      else record { written = []; outcome = err write_failed }

  -- The stream is what the client sends in time; the two flags say whether each write succeeds.
  unfoldable pub handle_ping : Bool → Bool → SharedState → Bytes → Served
  unfolding answer_status
  handle_ping writes_status writes_ping s stream =
      answer_status writes_status writes_ping s (read_packet stream)

-- What becomes of a connection behind its handshake, with the client's bytes that are left.
pub data Dispatch : Type 0 where
  refused : Error → Dispatch
  panicked : Dispatch
  unknown_address : Dispatch
  to_ping : Bytes → Dispatch
  to_login : Handshake → (handshake_raw : Bytes) → Bytes → Dispatch

module _ (to_lowercase : Bytes → Bytes) where
  unfoldable pub by_state : Handshake → Bytes → Bytes → Dispatch
  by_state hs raw rest =
      if hs.next_state == 1
      then to_ping rest
      else if hs.next_state == 2
      then to_login hs raw rest
      else refused unknown_next_state

  unfoldable pub by_address : Config → Bytes → Bytes → Result Handshake → Dispatch
  by_address config raw rest (err e) = refused e
  by_address config raw rest panic = panicked
  by_address config raw rest (ok hs) =
      if same_text (to_lowercase hs.server_address) (to_lowercase config.proxy.server_address)
      then by_state hs raw rest
      else unknown_address

  unfoldable pub by_packet : Config → Result ((RawPacket × Bytes) × Bytes) → Dispatch
  by_packet config (err e) = refused e
  by_packet config panic = panicked
  by_packet config (ok ((p, raw), rest)) = by_address config raw rest (parse_handshake p.contents)

  -- `handle_connection_inner` up to its last call.
  unfoldable pub dispatch : Config → Bytes → Dispatch
  unfolding by_packet by_address by_state
  dispatch config stream = by_packet config (read_packet stream)

-- The login start packet: the user's name, the bytes to relay, and what is left.
pub record LoginStart : Type 0 where
  pub username : Bytes
  pub login_raw : Bytes
  pub rest : Bytes

unfoldable pub named : Bytes → Bytes → Result Bytes → Result LoginStart
named raw rest (ok name) = ok (record { username = name; login_raw = raw; rest = rest })
named raw rest (err e) = err e
named raw rest panic = panic

unfoldable pub login_start : Result ((RawPacket × Bytes) × Bytes) → Result LoginStart
unfolding named
login_start (err e) = err e
login_start panic = panic
login_start (ok ((p, raw), rest)) =
    if p.id == 0x00 then named raw rest (parse_login_start p.contents) else err unexpected_packet

-- The part of `handle_login` before it touches the shared state.
unfoldable pub read_login_start : Bytes → Result LoginStart
unfolding login_start
read_login_start stream = login_start (read_packet stream)
