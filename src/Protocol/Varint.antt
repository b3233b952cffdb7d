-- ===== src/Protocol/Varint.antt =====
-- src/protocol/varint.rs. An `i32` is its bit pattern, a number below 2 ^ 32; so `value as u32` is
-- the number itself, and the sign is its top bit.
pub mod Decode
pub mod Encode
pub mod RoundTrip
use redoxide.Common.{
  ℕ, zero, suc, ◌+◌, ◌*◌, ◌/◌, ◌%◌, ◌^◌, ◌<◌, Bytes, [], ◌∷◌, bit_and, bit_or, ltb, ◌==◌,
  if◌then◌else◌,
}
use redoxide.Outcome.{ok, err, Reader, unexpected_eof, varint_too_long}

-- The bit patterns of `i32`.
abbrev pub IsI32 : ℕ → Type 0
IsI32 v = v < 2 ^ 32

abbrev pub IsByte : ℕ → Type 0
IsByte b = b < 256

-- `result |= ((byte & 0x7f) as i32) << shift`
abbrev add_group : ℕ → ℕ → ℕ → ℕ
add_group result b shift = bit_or result (bit_and b 0x7f * 2 ^ shift % 2 ^ 32)

-- One round for each byte of the stream; the stream may end anywhere.
read_varint_loop : ℕ → ℕ → Reader ℕ
read_varint_loop result shift [] = err unexpected_eof
read_varint_loop result shift (b ∷ rest) =
    let result' = add_group result b shift in
    let more = read_varint_loop result' (shift + 7) rest in
    if bit_and b 0x80 == 0
    then ok (result', rest)
    else if ltb (shift + 7) 35
    then more
    else err varint_too_long

unfoldable pub read_varint : Reader ℕ
unfolding read_varint_loop
read_varint = read_varint_loop 0 0

-- The blocking copy, over the cursor of a packet that is already in memory.
read_varint_sync_loop : ℕ → ℕ → Reader ℕ
read_varint_sync_loop result shift [] = err unexpected_eof
read_varint_sync_loop result shift (b ∷ rest) =
    let result' = add_group result b shift in
    let more = read_varint_sync_loop result' (shift + 7) rest in
    if bit_and b 0x80 == 0
    then ok (result', rest)
    else if ltb (shift + 7) 35
    then more
    else err varint_too_long

unfoldable pub read_varint_sync : Reader ℕ
unfolding read_varint_sync_loop
read_varint_sync = read_varint_sync_loop 0 0

-- The loop of `encode_varint` on fuel, one round for each byte. `value` has at most 32 bits, so
-- five rounds reach the end.
encode_varint_loop : ℕ → ℕ → Bytes
encode_varint_loop zero value = []
encode_varint_loop (suc fuel) value =
    let byte = bit_and value 0x7f % 256 in
    let value' = value / 2 ^ 7 in
    let rest = encode_varint_loop fuel value' in
    if value' == 0 then byte ∷ [] else bit_or byte 0x80 ∷ rest

unfoldable pub encode_varint : ℕ → Bytes
unfolding encode_varint_loop
encode_varint value = encode_varint_loop 5 value
