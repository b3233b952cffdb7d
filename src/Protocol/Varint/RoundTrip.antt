-- ===== src/Protocol/Varint/RoundTrip.antt =====
-- Reading back what encode_varint wrote, and how it compares with other encodings.
use redoxide.Common.{
  ℕ, suc, ◌+◌, ◌-◌, ◌^◌, ◌≤◌, ◌<◌, ◌≡◌, ◌∙◌, ap, Bytes, ◌++◌, length, length-append, length-drop,
  drop-append, arith,
}
use redoxide.Outcome.{ok}
use redoxide.Protocol.Varint.{IsI32, read_varint, read_varint_sync, encode_varint}
use redoxide.Protocol.Varint.Decode.{
  decoded, read_varint-decoded, read_varint_sync-eq, Taken, read_varint-Taken,
}
use redoxide.Protocol.Varint.Encode.{Encodes, encode_varint-Encodes, length-encode_varint-le}

Encodes-decoded :
    {v : ℕ} {code rest : Bytes}
    → IsI32 v
    → length code ≤ 5
    → Encodes v code rest
    → decoded 5 1 0 (code ++ rest) ≡ ok (v, rest)
Encodes-decoded {v} {code} {rest} h short e =
    let dropped = drop-append code rest in
    let len = length-append code rest in ground (arith, e.marked, e.value)

-- The reader gives back every i32 that was encoded, and leaves what follows it.
pub read_varint-encode_varint :
    (v : ℕ) (rest : Bytes) → IsI32 v → read_varint (encode_varint v ++ rest) ≡ ok (v, rest)
read_varint-encode_varint v rest h =
    read_varint-decoded (encode_varint v ++ rest)
    ∙ Encodes-decoded h (length-encode_varint-le 4 v (omega arith)) (encode_varint-Encodes v rest h)

pub read_varint_sync-encode_varint :
    (v : ℕ) (rest : Bytes) → IsI32 v → read_varint_sync (encode_varint v ++ rest) ≡ ok (v, rest)
read_varint_sync-encode_varint v rest h =
    read_varint_sync-eq (encode_varint v ++ rest) ∙ read_varint-encode_varint v rest h

Taken-shortest :
    (src : Bytes) {v : ℕ} {rest : Bytes}
    → Taken src v rest
    → length (encode_varint v) + length rest ≤ length src
Taken-shortest src {v} t =
    let e : t.count ≡ suc (t.count - 1) = omega arith in
    let small : v < 128 ^ suc (t.count - 1) = omega (arith, ap (λ (k : ℕ). 128 ^ k) e) in
    rw t.left
      (omega (arith, length-encode_varint-le (t.count - 1) v small, length-drop t.count src))

-- No encoding that the reader accepts is shorter than the one that encode_varint writes.
pub encode_varint_shortest :
    (src : Bytes) (v : ℕ) (rest : Bytes)
    → read_varint src ≡ ok (v, rest)
    → length (encode_varint v) + length rest ≤ length src
encode_varint_shortest src v rest h = Taken-shortest src (read_varint-Taken src h)
