-- ===== src/Protocol/Handshake/Parse.antt =====
-- The parsers on encoded fields, and what they accept.
use redoxide.Common.{ℕ, ◌≤◌, ◌≡◌, ◌≢◌, refl, true, Bytes, [], ◌∷◌, ◌++◌, length, All, arith}
use redoxide.Common.Utf8.{is_utf8}
use redoxide.Outcome.{Result, ok, err, panic, read_exact, bind-eq-ok, value_of}
use redoxide.Protocol.Varint.{IsI32, read_varint_sync, encode_varint}
use redoxide.Protocol.Varint.Decode.{read_varint_sync-IsI32}
use redoxide.Protocol.Varint.RoundTrip.{read_varint_sync-encode_varint}
use redoxide.Protocol.Packet.{max_string_len, encode_string, read_string_sync}
use redoxide.Protocol.Packet.Strings.{read_string_sync-encode_string, read_string_sync_valid}
use redoxide.Protocol.Handshake.{
  Handshake, before_nul, read_handshake, parse_handshake, parse_login_start,
}

length-before_nul : (s : Bytes) → length (before_nul s) ≤ length s
unfolding before_nul
length-before_nul [] = omega arith
length-before_nul (c ∷ cs) = ground (arith, length-before_nul cs)

-- No byte of the text is NUL.
abbrev pub HasNoNul : Bytes → Type 0
HasNoNul = All (λ c. c ≢ 0)

pub before_nul-HasNoNul : (s : Bytes) → HasNoNul (before_nul s)
unfolding before_nul
before_nul-HasNoNul [] = tt
before_nul-HasNoNul (c ∷ cs) = ground (arith, before_nul-HasNoNul cs)

pub before_nul-append :
    (host marker : Bytes) → HasNoNul host → before_nul (host ++ (0 ∷ marker)) ≡ host
unfolding before_nul
before_nul-append [] marker h = refl
before_nul-append (c ∷ cs) marker h = ground (arith, before_nul-append cs marker h.1)

before_nul_whole : (host : Bytes) → HasNoNul host → before_nul host ≡ host
unfolding before_nul
before_nul_whole [] h = refl
before_nul_whole (c ∷ cs) h = ground (arith, before_nul_whole cs h.1)

-- The fields of a handshake as a client writes them, with any `tail` behind.
abbrev pub handshake_bytes : ℕ → Bytes → ℕ → ℕ → ℕ → Bytes → Bytes
handshake_bytes protocol address port_hi port_lo next_state tail =
    encode_varint protocol
    ++ (encode_string address ++ (port_hi ∷ port_lo ∷ (encode_varint next_state ++ tail)))

read_handshake-handshake_bytes :
    (protocol : ℕ) (address : Bytes) (hi lo next_state : ℕ) (tail : Bytes)
    → IsI32 protocol
    → is_utf8 address ≡ true
    → length address ≤ max_string_len
    → IsI32 next_state
    → read_handshake (handshake_bytes protocol address hi lo next_state tail)
      ≡ ok (
        record {
          protocol_version = protocol;
          server_address = before_nul address;
          next_state = next_state;
        },
        tail,
      )
unfolding read_handshake
read_handshake-handshake_bytes protocol address hi lo next_state tail p u l n =
    rw
      (read_varint_sync-encode_varint protocol
        (encode_string address ++ (hi ∷ lo ∷ (encode_varint next_state ++ tail))) p)
      (rw
        (read_string_sync-encode_string address (hi ∷ lo ∷ (encode_varint next_state ++ tail)) u l)
        (ground (arith, read_varint_sync-encode_varint next_state tail n)))

-- The parser gives back the fields of a handshake; of the address, the part before a NUL, so that
-- a Forge marker behind it is dropped.
pub parse_handshake-handshake_bytes :
    (protocol : ℕ) (host marker : Bytes) (hi lo next_state : ℕ) (tail : Bytes)
    → IsI32 protocol
    → HasNoNul host
    → is_utf8 (host ++ (0 ∷ marker)) ≡ true
    → length (host ++ (0 ∷ marker)) ≤ max_string_len
    → IsI32 next_state
    → parse_handshake (handshake_bytes protocol (host ++ (0 ∷ marker)) hi lo next_state tail)
      ≡ ok (record { protocol_version = protocol; server_address = host; next_state = next_state })
unfolding parse_handshake
parse_handshake-handshake_bytes protocol host marker hi lo next_state tail p nul u l n =
    rw
      (read_handshake-handshake_bytes protocol (host ++ (0 ∷ marker)) hi lo next_state tail p u l n)
      (rw (before_nul-append host marker nul))

-- An address with no NUL in it is given back whole.
pub parse_handshake-handshake_bytes_plain :
    (protocol : ℕ) (host : Bytes) (hi lo next_state : ℕ) (tail : Bytes)
    → IsI32 protocol
    → HasNoNul host
    → is_utf8 host ≡ true
    → length host ≤ max_string_len
    → IsI32 next_state
    → parse_handshake (handshake_bytes protocol host hi lo next_state tail)
      ≡ ok (record { protocol_version = protocol; server_address = host; next_state = next_state })
unfolding parse_handshake
parse_handshake-handshake_bytes_plain protocol host hi lo next_state tail p nul u l n =
    rw (read_handshake-handshake_bytes protocol host hi lo next_state tail p u l n)
      (rw (before_nul_whole host nul))

-- The username is read whatever tail the protocol version puts behind it.
pub parse_login_start-encode_string :
    (name tail : Bytes)
    → is_utf8 name ≡ true
    → length name ≤ max_string_len
    → parse_login_start (encode_string name ++ tail) ≡ ok name
unfolding parse_login_start
parse_login_start-encode_string name tail u l = rw (read_string_sync-encode_string name tail u l)

value_of-eq-ok :
    {A : Type 0} (r : Result (A × Bytes)) {a : A}
    → value_of r ≡ ok a
    → (s : Bytes) × (r ≡ ok (a, s))
value_of-eq-ok (ok (a, s)) h = (s, ground arith)
value_of-eq-ok (err e) h = cc
value_of-eq-ok panic h = cc

read_handshake_valid :
    (bytes : Bytes) {hs : Handshake} {s : Bytes}
    → read_handshake bytes ≡ ok (hs, s)
    → HasNoNul hs.server_address × (length hs.server_address ≤ max_string_len) × IsI32 hs.next_state
unfolding read_handshake
read_handshake_valid bytes {hs} h =
    let (protocol, s1, e1, h1) = bind-eq-ok (read_varint_sync bytes) _ h in
    let (address, s2, e2, h2) = bind-eq-ok (read_string_sync s1) _ h1 in
    let (port, s3, e3, h3) = bind-eq-ok (read_exact 2 s2) _ h2 in
    let (next, s4, e4, h4) = bind-eq-ok (read_varint_sync s3) _ h3 in
    let small = read_varint_sync-IsI32 s3 next s4 e4 in
    let (utf8, short) = read_string_sync_valid s1 address s2 e2 in
    let bound : length (before_nul address) ≤ max_string_len =
      omega (arith, length-before_nul address) in
    let same : before_nul address ≡ hs.server_address = ground arith in
    (rw same at (before_nul-HasNoNul address), rw same at bound, ground arith)

-- A handshake that is accepted has an address within the string cap and with no NUL in it, and its
-- next state is an i32.
pub parse_handshake_valid :
    (bytes : Bytes) (hs : Handshake)
    → parse_handshake bytes ≡ ok hs
    → HasNoNul hs.server_address × (length hs.server_address ≤ max_string_len) × IsI32 hs.next_state
unfolding parse_handshake
parse_handshake_valid bytes hs h =
    let (s, e) = value_of-eq-ok (read_handshake bytes) h in read_handshake_valid bytes e
