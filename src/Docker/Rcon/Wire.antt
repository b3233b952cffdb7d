-- ===== src/Docker/Rcon/Wire.antt =====
-- rcon_send against rcon_recv, and the answers that rcon_recv does not survive.
use redoxide.Common.{
  ℕ, ◌+◌, ◌≤◌, ◌<◌, ◌≡◌, ◌∙◌, refl, true, Bytes, [], ◌∷◌, ◌++◌, append_assoc, length, length-append,
  take-append, arith,
}
use redoxide.Common.Utf8.{is_utf8, from_utf8_lossy_valid}
use redoxide.Outcome.{ok, panic, read_exact, read_exact-append}
use redoxide.Protocol.Varint.{IsI32}
use redoxide.Protocol.Packet.{as_i32}
use redoxide.Docker.Rcon.{
  max_rcon_packet_len, to_le_bytes, from_le_bytes, rcon_fields, rcon_send, rcon_recv,
}

from_le_bytes-to_le_bytes : (x : ℕ) → IsI32 x → from_le_bytes (to_le_bytes x) ≡ x
unfolding from_le_bytes to_le_bytes
from_le_bytes-to_le_bytes x h = omega arith

length-to_le_bytes : (x : ℕ) → length (to_le_bytes x) ≡ 4
unfolding to_le_bytes
length-to_le_bytes x = refl

read_exact-to_le_bytes :
    (x : ℕ) (s : Bytes) → read_exact 4 (to_le_bytes x ++ s) ≡ ok (to_le_bytes x, s)
read_exact-to_le_bytes x s = rw length-to_le_bytes at (read_exact-append (to_le_bytes x) s)

-- A body behind its length reaches the slices.
rcon_recv-body :
    (n : ℕ) (body rest : Bytes)
    → n ≡ length body
    → length body ≤ max_rcon_packet_len
    → rcon_recv (to_le_bytes n ++ (body ++ rest)) ≡ rcon_fields body rest
unfolding rcon_recv
rcon_recv-body n body rest e fits =
    let whole : from_le_bytes (to_le_bytes n) ≡ length body =
      from_le_bytes-to_le_bytes n (omega arith) ∙ e in
    rw (read_exact-to_le_bytes n (body ++ rest), whole)
      (ground (arith, read_exact-append body rest))

rcon_fields_sent :
    (id pkt_type : ℕ) (payload rest : Bytes)
    → IsI32 id
    → IsI32 pkt_type
    → is_utf8 payload ≡ true
    → rcon_fields (to_le_bytes id ++ (to_le_bytes pkt_type ++ (payload ++ (0 ∷ 0 ∷ [])))) rest
      ≡ ok (record { id = id; pkt_type = pkt_type; payload = payload }, rest)
unfolding rcon_fields to_le_bytes
rcon_fields_sent id pkt_type payload rest i t u = ground (
  arith,
  length-append payload (0 ∷ 0 ∷ []),
  take-append payload (0 ∷ 0 ∷ []),
  from_utf8_lossy_valid payload u,
  from_le_bytes-to_le_bytes id i,
  from_le_bytes-to_le_bytes pkt_type t,
)

rcon_fields_panics : (body rest : Bytes) → length body < 10 → rcon_fields body rest ≡ panic
unfolding rcon_fields
rcon_fields_panics body rest h = ground arith

-- A packet is read back by its receiver, which leaves what follows it, if its payload is UTF-8 of
-- at most 4096 bytes.
pub rcon_recv-rcon_send :
    (id pkt_type : ℕ) (payload rest : Bytes)
    → IsI32 id
    → IsI32 pkt_type
    → is_utf8 payload ≡ true
    → length payload ≤ 4096
    → rcon_recv (rcon_send id pkt_type payload ++ rest)
      ≡ ok (record { id = id; pkt_type = pkt_type; payload = payload }, rest)
unfolding rcon_send
rcon_recv-rcon_send id pkt_type payload rest i t u l =
    let a : Bytes = to_le_bytes id in
    let b : Bytes = to_le_bytes pkt_type in
    let c : Bytes = payload ++ (0 ∷ 0 ∷ []) in
    let body : Bytes = a ++ (b ++ c) in
    let len : as_i32 (4 + 4 + length payload + 2) ≡ length body = omega (
      arith,
      length-append a (b ++ c),
      length-append b c,
      length-append payload (0 ∷ 0 ∷ []),
      length-to_le_bytes id,
      length-to_le_bytes pkt_type,
    ) in
    rw (append_assoc (to_le_bytes (as_i32 (4 + 4 + length payload + 2))) body rest) (
      rcon_recv-body _ body rest len (omega arith)
      ∙ rcon_fields_sent id pkt_type payload rest i t u)

-- Fewer bytes than the id, the type and the two terminators take make the receiver panic, if the
-- length that stands before them says so.
pub rcon_recv_panics :
    (body rest : Bytes)
    → length body < 10
    → rcon_recv (to_le_bytes (length body) ++ (body ++ rest)) ≡ panic
rcon_recv_panics body rest h =
    rcon_recv-body (length body) body rest refl (omega arith) ∙ rcon_fields_panics body rest h
