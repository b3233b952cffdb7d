-- ===== src/Protocol/Packet/Framing.antt =====
-- encode_packet and read_packet.
use redoxide.Common.{
  ℕ, ◌+◌, ◌≤◌, ◌<◌, ◌≡◌, Bytes, ◌++◌, append_assoc, length, length-take, length-append, take-append,
  drop-append, if◌then◌else◌, take-append-drop, arith,
}
use redoxide.Outcome.{
  Result, ok, err, bind-eq-ok, on_cursor, on_cursor-eq-ok, negative_packet_length, packet_too_long,
}
use redoxide.Protocol.Varint.{IsI32, read_varint, read_varint_sync, encode_varint}
use redoxide.Protocol.Varint.RoundTrip.{
  read_varint-encode_varint, read_varint_sync-encode_varint, encode_varint_shortest,
}
use redoxide.Protocol.Packet.{
  RawPacket, max_packet_len, as_i32, is_nonneg, read_frame, read_packet, encode_packet,
}

-- A buffer behind its length is read as it is.
pub read_frame-encode_varint :
    (buf rest : Bytes)
    → length buf ≤ max_packet_len
    → read_frame (encode_varint (length buf) ++ (buf ++ rest)) ≡ ok ((length buf, buf), rest)
unfolding read_frame
read_frame-encode_varint buf rest fits =
    rw (read_varint-encode_varint (length buf) (buf ++ rest) (omega arith))
      (ground (arith, length-append buf rest, take-append buf rest, drop-append buf rest))

-- `read_packet` on a buffer whose first number is `id`.
frame-packet :
    (buf rest : Bytes) {id : ℕ} {contents : Bytes}
    → length buf ≤ max_packet_len
    → read_varint_sync buf ≡ ok (id, contents)
    → let raw = encode_varint (length buf) ++ buf in
      read_packet (raw ++ rest) ≡ ok ((record { id = id; contents = contents }, raw), rest)
unfolding read_packet
frame-packet buf rest fits first =
    rw (append_assoc (encode_varint (length buf)) buf rest)
      (rw (read_frame-encode_varint buf rest fits) (ground arith))

-- An encoded packet is read back, is relayed as it was encoded, and what follows it is left.
pub read_packet-encode_packet :
    (id : ℕ) (contents rest : Bytes)
    → IsI32 id
    → length (encode_varint id) + length contents ≤ max_packet_len
    → read_packet (encode_packet id contents ++ rest)
      ≡ ok ((record { id = id; contents = contents }, encode_packet id contents), rest)
unfolding encode_packet
read_packet-encode_packet id contents rest h fits =
    let payload : Bytes = encode_varint id ++ contents in
    let joined = length-append (encode_varint id) contents in
    let len : as_i32 (length (encode_varint id) + length contents) ≡ length payload =
      omega (arith, joined) in
    rw len (
      frame-packet payload rest (omega (arith, joined))
        (read_varint_sync-encode_varint id contents h))

-- What a successful read says of the frame.
pub read_frame-eq-ok :
    (src : Bytes) {len : ℕ} {buf rest : Bytes}
    → read_frame src ≡ ok ((len, buf), rest)
    → (len ≡ length buf) × (len ≤ max_packet_len) × (read_varint src ≡ ok (len, buf ++ rest))
unfolding read_frame
read_frame-eq-ok src h =
    let (len, s, e, k) = bind-eq-ok (read_varint src) _ h in
    ground (arith, length-take len s, take-append-drop len s)

-- What a successful `read_packet` found: a frame within the cap, whose buffer starts with the id.
pub record Frame (src : Bytes) (p : RawPacket) (raw rest : Bytes) : Type 0 where
  pub buf : Bytes
  pub fits : length buf ≤ max_packet_len
  pub header : read_varint src ≡ ok (length buf, buf ++ rest)
  pub first : read_varint_sync buf ≡ ok (p.id, p.contents)
  pub relayed : raw ≡ encode_varint (length buf) ++ buf

Frame-intro :
    (src buf s : Bytes) {len id : ℕ} {contents : Bytes} {p : RawPacket} {raw rest : Bytes}
    → read_frame src ≡ ok ((len, buf), s)
    → read_varint_sync buf ≡ ok (id, contents)
    → ◌≡◌ {A = Result ((RawPacket × Bytes) × Bytes)}
        (ok ((record { id = id; contents = contents }, encode_varint (as_i32 len) ++ buf), s))
        (ok ((p, raw), rest))
    → Frame src p raw rest
Frame-intro src buf s {len} e first k =
    let (same, fits, header) = read_frame-eq-ok src e in
    let whole : as_i32 len ≡ length buf = omega arith in
    record {
      buf = buf;
      fits = omega arith;
      header = ground arith;
      first = ground arith;
      relayed = ground arith;
    }

pub read_packet-Frame :
    (src : Bytes) {p : RawPacket} {raw rest : Bytes}
    → read_packet src ≡ ok ((p, raw), rest)
    → Frame src p raw rest
unfolding read_packet
read_packet-Frame src h =
    let ((len, buf), s, e, k) = bind-eq-ok (read_frame src) _ h in
    let (first, s2, e2, k2) = bind-eq-ok (on_cursor buf read_varint_sync s) _ k in
    let (e3, same) = on_cursor-eq-ok buf read_varint_sync s e2 in
    Frame-intro src buf s e e3 (rw same at k2)

-- Whatever packet is accepted, the bytes relayed for it are at most as many as those that were
-- taken, and they are read as the same packet again.
pub read_packet_relays :
    (src rest behind : Bytes) (p : RawPacket) (raw : Bytes)
    → read_packet src ≡ ok ((p, raw), rest)
    → (read_packet (raw ++ behind) ≡ ok ((p, raw), behind))
      × (length raw + length rest ≤ length src)
read_packet_relays src rest behind p raw h =
    let f = read_packet-Frame src h in
    let shorter = encode_varint_shortest src _ _ f.header in
    rw f.relayed (
      frame-packet f.buf behind f.fits f.first,
      omega (
        arith,
        shorter,
        length-append f.buf rest,
        length-append (encode_varint (length f.buf)) f.buf,
      ),
    )

-- A length outside the range is refused whatever follows it, a negative one and one above the cap
-- each with its own error.
pub read_packet_refuses :
    (n : ℕ) (rest : Bytes)
    → IsI32 n
    → max_packet_len < n
    → read_packet (encode_varint n ++ rest)
      ≡ err (if is_nonneg n then packet_too_long else negative_packet_length)
unfolding read_packet read_frame
read_packet_refuses n rest h big = rw (read_varint-encode_varint n rest h) (ground arith)
