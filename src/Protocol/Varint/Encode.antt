-- ===== src/Protocol/Varint/Encode.antt =====
-- What encode_varint writes.
use redoxide.Common.{
  ℕ, zero, suc, ◌+◌, ◌/◌, ◌%◌, ◌^◌, ◌≤◌, ◌<◌, ◌≡◌, Bytes, ◌++◌, length, arith, bit_and, bit_or,
}
use redoxide.Common.Bits.{bit_and-seven_bits, bit_or_disjoint}
use redoxide.Protocol.Varint.{IsI32, encode_varint_loop, encode_varint}
use redoxide.Protocol.Varint.Decode.{continues, groups}
use native.Mathlib.Nat.{pow-suc}

low_group : (v : ℕ) → bit_and v 0x7f % 256 ≡ v % 128
low_group v = omega (arith, bit_and-seven_bits v)

marked_group : (g : ℕ) → g < 128 → bit_or g 0x80 ≡ g + 128
marked_group g h = bit_or_disjoint 7 g 1 h

-- An encoding with anything behind it: all its bytes but the last are marked, and its groups make
-- the value.
pub record Encodes (v : ℕ) (code rest : Bytes) : Type 0 where
  pub marked : suc (continues (code ++ rest)) ≡ length code
  pub value : groups (length code) (code ++ rest) ≡ v

encode_varint_loop-Encodes :
    (fuel v : ℕ) (rest : Bytes)
    → v < 128 ^ suc fuel
    → Encodes v (encode_varint_loop (suc fuel) v) rest
unfolding encode_varint_loop continues groups
encode_varint_loop-Encodes zero v rest h = ground (arith, low_group v)
encode_varint_loop-Encodes (suc fuel) v rest h = ground (
  arith,
  low_group v,
  marked_group (v % 128),
  pow-suc 128 (suc fuel),
  encode_varint_loop-Encodes fuel (v / 128) rest (omega (arith, pow-suc 128 (suc fuel))),
)

pub encode_varint-Encodes : (v : ℕ) (rest : Bytes) → IsI32 v → Encodes v (encode_varint v) rest
unfolding encode_varint
encode_varint-Encodes v rest h = encode_varint_loop-Encodes 4 v rest (omega arith)

-- A value below 128 ^ k takes at most k bytes.
length-encode_varint_loop :
    (fuel k v : ℕ) → v < 128 ^ suc k → length (encode_varint_loop fuel v) ≤ suc k
unfolding encode_varint_loop
length-encode_varint_loop zero k v h = omega arith
length-encode_varint_loop (suc fuel) zero v h = ground arith
length-encode_varint_loop (suc fuel) (suc k) v h =
    ground (arith, length-encode_varint_loop fuel k (v / 128) (omega (arith, pow-suc 128 (suc k))))

pub length-encode_varint-le : (k v : ℕ) → v < 128 ^ suc k → length (encode_varint v) ≤ suc k
unfolding encode_varint
length-encode_varint-le k v h = length-encode_varint_loop 5 k v h
