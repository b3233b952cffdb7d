-- ===== src/Proxy/Probe.antt =====
-- probe_server_version of src/proxy.rs: the proxy as the client of another server.
pub mod Exchange
pub mod Target
use redoxide.Common.{
  ℕ, ◌+◌, ◌-◌, ◌/◌, ◌%◌, ◌^◌, Bool, Bytes, List, [], ◌∷◌, ◌++◌, Option, none, some, ◌==◌, leb,
  if◌then◌else◌, length, take, drop, ◌&&◌,
}
use redoxide.Config.{codes}
use redoxide.Config.Text.{parse_u16}
use redoxide.Outcome.{Result, ok, err, panic}
use redoxide.Protocol.Varint.{read_varint_sync, encode_varint}
use redoxide.Protocol.Packet.{RawPacket, read_packet, encode_packet, encode_string, is_nonneg}

-- `str::split(':')`, which yields at least one part
onto_part : ℕ → List Bytes → List Bytes
onto_part c [] = (c ∷ []) ∷ []
onto_part c (p ∷ ps) = (c ∷ p) ∷ ps

split : ℕ → Bytes → List Bytes
unfolding onto_part
split sep [] = [] ∷ []
split sep (c ∷ cs) = let rest = split sep cs in if c == sep then [] ∷ rest else onto_part c rest

host_of : List Bytes → Bytes
host_of [] = codes "localhost"
host_of (host ∷ _) = host

port_of : List Bytes → ℕ
port_of (_ ∷ port ∷ _) = elim (parse_u16 port) [ none ↦ 25565 | some n ↦ n ]
port_of _ = 25565

unfoldable pub probe_host : Bytes → Bytes
unfolding split host_of
probe_host target = host_of (split b':' target)

unfoldable pub probe_port : Bytes → ℕ
unfolding split port_of
probe_port target = port_of (split b':' target)

-- What the probe writes: a handshake that asks for the status, then the status request.
unfoldable pub probe_request : Bytes → Bytes
probe_request target =
    let host = probe_host target in
    let port = probe_port target in
    let hs_data =
      encode_varint 0 ++ (encode_string host ++ (port / 256 ∷ port % 256 ∷ encode_varint 1)) in
    encode_packet 0x00 hs_data ++ encode_packet 0x00 []

-- `n as usize` of an i32, on a 64-bit target
unfoldable pub as_usize : ℕ → ℕ
as_usize n = if is_nonneg n then n else n + (2 ^ 64 - 2 ^ 32)

-- `slice::get(from..to)`
unfoldable pub get_range : ℕ → ℕ → Bytes → Option Bytes
get_range from to s =
    if leb from to && leb to (length s) then some (take (to - from) (drop from s)) else none

-- `serde_json::Value` of a library, with what the probe uses of it: `from_slice`, the index by a
-- key, `as_i64` to the bit pattern, and `as_str`.
pub record JsonReader : Type 1 where
  pub Value : Type 0
  pub from_slice : Bytes → Option Value
  pub index : Value → Bytes → Value
  pub as_i64 : Value → Option ℕ
  pub as_str : Value → Option Bytes

module _ (json : JsonReader) where
  -- The two lookups; `as i32` keeps the low 32 bits.
  unfoldable pub named_version : Option ℕ → Option Bytes → Option (ℕ × Bytes)
  named_version (some protocol) (some version) = some (protocol % 2 ^ 32, version)
  named_version _ _ = none

  unfoldable pub version_of : Option json.Value → Option (ℕ × Bytes)
  unfolding named_version
  version_of none = none
  version_of (some v) =
      let version = json.index v (codes "version") in
      named_version (json.as_i64 (json.index version (codes "protocol")))
        (json.as_str (json.index version (codes "name")))

  unfoldable pub parse_range : Option Bytes → Option (ℕ × Bytes)
  unfolding version_of
  parse_range none = none
  parse_range (some bytes) = version_of (json.from_slice bytes)

  -- The cursor stands behind the length; the sum of the start and the length wraps around, as it
  -- does in a release build.
  unfoldable pub status_json : Bytes → Result (ℕ × Bytes) → Option (ℕ × Bytes)
  unfolding parse_range get_range as_usize
  status_json contents (ok (json_len, rest)) =
      let json_start = length contents - length rest in
      parse_range (get_range json_start ((json_start + as_usize json_len) % 2 ^ 64) contents)
  status_json contents _ = none

  unfoldable pub probe_packet : Result ((RawPacket × Bytes) × Bytes) → Option (ℕ × Bytes)
  unfolding status_json
  probe_packet (ok ((pkt, _), _)) =
      if pkt.id == 0x00 then status_json pkt.contents (read_varint_sync pkt.contents) else none
  probe_packet _ = none

  -- What the probe makes of the bytes that the server sends in time, after it connected.
  unfoldable pub probe_reply : Bytes → Option (ℕ × Bytes)
  unfolding probe_packet
  probe_reply stream = probe_packet (read_packet stream)
