-- ===== src/Protocol/Handshake.antt =====
-- src/protocol/handshake.rs: the first packet of a connection, and the login start.
pub mod Parse
use redoxide.Common.{ℕ, Bytes, [], ◌∷◌, ◌==◌, if◌then◌else◌}
use redoxide.Outcome.{Result, Reader, ◌>>=◌, return, read_exact, value_of}
use redoxide.Protocol.Varint.{read_varint_sync}
use redoxide.Protocol.Packet.{read_string_sync}

pub record Handshake : Type 0 where
  pub protocol_version : ℕ
  pub server_address : Bytes
  pub next_state : ℕ

-- `raw_address.split('\0').next()`, which always is there
unfoldable pub before_nul : Bytes → Bytes
before_nul [] = []
before_nul (c ∷ cs) = if c == 0 then [] else c ∷ before_nul cs

read_handshake : Reader Handshake
read_handshake = do
  protocol_version ← read_varint_sync
  raw_address ← read_string_sync
  let server_address = before_nul raw_address
  port_bytes ← read_exact 2
  next_state ← read_varint_sync
  return (record {
    protocol_version = protocol_version;
    server_address = server_address;
    next_state = next_state;
  })

-- Both parsers ignore what follows the part that they read.
unfoldable pub parse_handshake : Bytes → Result Handshake
unfolding read_handshake
parse_handshake bytes = value_of (read_handshake bytes)

unfoldable pub parse_login_start : Bytes → Result Bytes
parse_login_start bytes = value_of (read_string_sync bytes)
