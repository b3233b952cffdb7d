-- ===== src/Protocol/Packet/Strings.antt =====
-- encode_string and read_string_sync.
use redoxide.Common.{
  ◌≤◌, ◌≡◌, true, Bytes, ◌+◌, ◌++◌, append_assoc, length, length-take, length-append, take-append,
  drop-append, arith,
}
use redoxide.Common.Utf8.{is_utf8}
use redoxide.Outcome.{ok, bind-eq-ok}
use redoxide.Protocol.Varint.{read_varint_sync, encode_varint}
use redoxide.Protocol.Varint.Encode.{length-encode_varint-le}
use redoxide.Protocol.Varint.RoundTrip.{read_varint_sync-encode_varint}
use redoxide.Protocol.Packet.{max_string_len, as_i32, encode_string, read_string_sync}

-- A string that fits the cap is read back, and what follows it is left.
pub read_string_sync-encode_string :
    (s rest : Bytes)
    → is_utf8 s ≡ true
    → length s ≤ max_string_len
    → read_string_sync (encode_string s ++ rest) ≡ ok (s, rest)
unfolding read_string_sync encode_string
read_string_sync-encode_string s rest valid fits =
    let len : as_i32 (length s) ≡ length s = omega arith in
    rw (len, append_assoc (encode_varint (length s)) s rest)
      (rw (read_varint_sync-encode_varint (length s) (s ++ rest) (omega arith))
        (ground (arith, length-append s rest, take-append s rest, drop-append s rest)))

-- Every string that is accepted is UTF-8 and fits the cap.
pub read_string_sync_valid :
    (src s rest : Bytes)
    → read_string_sync src ≡ ok (s, rest)
    → (is_utf8 s ≡ true) × (length s ≤ max_string_len)
unfolding read_string_sync
read_string_sync_valid src s rest h =
    let (len, s1, e1, h1) = bind-eq-ok (read_varint_sync src) _ h in
    ground (arith, length-take len s1)

pub length-encode_string : (s : Bytes) → length (encode_string s) ≤ 5 + length s
unfolding encode_string
length-encode_string s =
    let header : Bytes = encode_varint (as_i32 (length s)) in
    omega
      (arith, length-append header s, length-encode_varint-le 4 (as_i32 (length s)) (omega arith))

pub encode_string_short :
    (s : Bytes) → length s ≤ max_string_len → encode_string s ≡ encode_varint (length s) ++ s
unfolding encode_string
encode_string_short s fits = let len : as_i32 (length s) ≡ length s = omega arith in rw len
