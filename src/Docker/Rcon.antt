-- ===== src/Docker/Rcon.antt =====
-- The RCON protocol of src/docker.rs. An i32 is its bit pattern.
pub mod Wire
use redoxide.Common.{
  ℕ, ◌+◌, ◌-◌, ◌*◌, ◌/◌, ◌%◌, ◌^◌, Bool, true, false, ◌&&◌, not, Bytes, [], ◌∷◌, ◌++◌, length, take,
  drop, ltb, leb, ◌==◌, if◌then◌else◌,
}
use redoxide.Common.Utf8.{from_utf8_lossy}
use redoxide.Config.{RconConfig, codes}
use redoxide.Outcome.{
  Error, Result, ok, err, panic, Reader, ◌>>=◌, ◌>>◌, return, ensure, read_exact,
  negative_rcon_length, rcon_too_long, connection_failed, write_failed, rcon_auth_failed,
}
use redoxide.Protocol.Packet.{is_nonneg, as_i32}

abbrev pub max_rcon_packet_len : ℕ
max_rcon_packet_len = 4096 + 10

-- `i32::to_le_bytes`
unfoldable pub to_le_bytes : ℕ → Bytes
to_le_bytes x = x % 256 ∷ x / 256 % 256 ∷ x / 65536 % 256 ∷ x / 16777216 % 256 ∷ []

-- `i32::from_le_bytes`, of four bytes
unfoldable pub from_le_bytes : Bytes → ℕ
from_le_bytes [] = 0
from_le_bytes (b ∷ bs) = b + 256 * from_le_bytes bs

-- The buffer that `rcon_send` writes.
unfoldable pub rcon_send : ℕ → ℕ → Bytes → Bytes
rcon_send id pkt_type payload =
    let len = as_i32 (4 + 4 + length payload + 2) in
    to_le_bytes len ++ (to_le_bytes id ++ (to_le_bytes pkt_type ++ (payload ++ (0 ∷ 0 ∷ []))))

-- `&xs[from..to]`, which panics where the range is not one of the slice.
abbrev pub slice : ℕ → ℕ → Bytes → Reader Bytes
slice from to xs s =
    if leb from to && leb to (length xs) then ok (take (to - from) (drop from xs), s) else panic

pub record RconPacket : Type 0 where
  pub id : ℕ
  pub pkt_type : ℕ
  pub payload : Bytes

-- The end of `rcon_recv`, once the body is there.
rcon_fields : Bytes → Reader RconPacket
rcon_fields body = do
  id_bytes ← slice 0 4 body
  type_bytes ← slice 4 8 body
  text ← slice 8 (length body - 2) body
  return (record {
    id = from_le_bytes id_bytes;
    pkt_type = from_le_bytes type_bytes;
    payload = from_utf8_lossy text;
  })

unfoldable pub rcon_recv : Reader RconPacket
unfolding rcon_fields
rcon_recv = do
  len_buf ← read_exact 4
  let raw_length = from_le_bytes len_buf
  ensure (is_nonneg raw_length) negative_rcon_length
  ensure (leb raw_length max_rcon_packet_len) rcon_too_long
  body ← read_exact raw_length
  rcon_fields body

-- What the network does in one `rcon_stop`: whether the connection is made and each of the two
-- writes succeeds, all within the ten seconds, and the bytes that come back in that time.
pub record Peer : Type 0 where
  pub connects : Bool
  pub takes_auth : Bool
  pub takes_command : Bool
  pub reply : Bytes

-- The bytes that were written, and how it ended.
pub record Exchange : Type 0 where
  pub written : Bytes
  pub outcome : Result (Unit {0})

abbrev pub auth_refused : ℕ
auth_refused = 2 ^ 32 - 1

-- Behind the authentication: the command is sent unless the id of the answer is -1.
send_stop : Peer → Bytes → Result (RconPacket × Bytes) → Exchange
send_stop peer auth (err e) = record { written = auth; outcome = err e }
send_stop peer auth panic = record { written = auth; outcome = panic }
send_stop peer auth (ok (answer, rest)) =
    if answer.id == auth_refused
    then record { written = auth; outcome = err rcon_auth_failed }
    else if peer.takes_command
    then record { written = auth ++ rcon_send 2 2 (codes "stop"); outcome = ok tt }
    else record { written = auth; outcome = err write_failed }

unfoldable pub rcon_stop : RconConfig → Peer → Exchange
unfolding send_stop
rcon_stop cfg peer =
    let auth = rcon_send 1 3 cfg.password in
    if not peer.connects
    then record { written = []; outcome = err connection_failed }
    else if not peer.takes_auth
    then record { written = []; outcome = err write_failed }
    else send_stop peer auth (rcon_recv peer.reply)
