-- ===== src/Protocol/Packet.antt =====
-- src/protocol/packet.rs: packets behind their length, and strings behind theirs.
pub mod Strings
pub mod Framing
use redoxide.Common.{ℕ, ◌+◌, ◌%◌, ◌^◌, Bool, Bytes, ◌++◌, length, ltb, leb}
use redoxide.Common.Utf8.{is_utf8}
use redoxide.Outcome.{
  Reader, ◌>>=◌, ◌>>◌, return, ensure, read_exact, on_cursor, negative_packet_length,
  packet_too_long, negative_string_length, string_too_long, invalid_utf8,
}
use redoxide.Protocol.Varint.{read_varint, read_varint_sync, encode_varint}

abbrev pub max_packet_len : ℕ
max_packet_len = 2_097_151

abbrev pub max_string_len : ℕ
max_string_len = 131_072

-- `RawPacket`; `contents` is its field `data`.
pub record RawPacket : Type 0 where
  pub id : ℕ
  pub contents : Bytes

-- `x >= 0` for the bit pattern of an i32
abbrev pub is_nonneg : ℕ → Bool
is_nonneg x = ltb x (2 ^ 31)

-- `n as i32`
abbrev pub as_i32 : ℕ → ℕ
as_i32 n = n % 2 ^ 32

-- The reads of `read_packet` on the stream itself: the length, and a buffer of that length.
unfoldable pub read_frame : Reader (ℕ × Bytes)
read_frame = do
  raw_length ← read_varint
  ensure (is_nonneg raw_length) negative_packet_length
  ensure (leb raw_length max_packet_len) packet_too_long
  buf ← read_exact raw_length
  return (raw_length, buf)

-- The packet, and the bytes that are relayed: the length written anew, then the buffer as it came.
unfoldable pub read_packet : Reader (RawPacket × Bytes)
unfolding read_frame
read_packet = do
  (len, buf) ← read_frame
  let raw = encode_varint (as_i32 len) ++ buf
  (id, contents) ← on_cursor buf read_varint_sync
  return (record { id = id; contents = contents }, raw)

unfoldable pub encode_packet : ℕ → Bytes → Bytes
encode_packet id contents =
    let id_bytes = encode_varint id in
    let total = length id_bytes + length contents in
    encode_varint (as_i32 total) ++ (id_bytes ++ contents)

unfoldable pub encode_string : Bytes → Bytes
encode_string s = encode_varint (as_i32 (length s)) ++ s

unfoldable pub read_string_sync : Reader Bytes
read_string_sync = do
  raw_len ← read_varint_sync
  ensure (is_nonneg raw_len) negative_string_length
  ensure (leb raw_len max_string_len) string_too_long
  bytes ← read_exact raw_len
  ensure (is_utf8 bytes) invalid_utf8
  return bytes
