-- ===== src/Proxy/Connection/Relay.antt =====
-- What the server receives of a login.
use redoxide.Common.{List, some, ◌≡◌, refl, true, Bytes, ◌++◌, arith, ◌==◌, Bool-cases, inl, inr}
use redoxide.Config.{Config}
use redoxide.Config.Text.{same_text}
use redoxide.Outcome.{Result, ok, err, panic}
use redoxide.Protocol.Handshake.{Handshake, parse_handshake, parse_login_start}
use redoxide.Protocol.Packet.{RawPacket, read_packet}
use redoxide.Protocol.Packet.Framing.{read_packet_relays}
use redoxide.Proxy.Forward.{CopyEvent, Direction, Link, forward}
use redoxide.Proxy.Forward.Delivery.{forward-Delivered}
use redoxide.Proxy.Connection.{
  to_login, dispatch, by_packet, by_address, by_state, LoginStart, named, login_start,
  read_login_start,
}

-- The server reads from `bytes` the packets that the proxy read from `client`: a handshake `hs`
-- that asks for a login, then the login start of the user `name`, and what follows is `rest`.
pub record Relayed (bytes : Bytes) (hs : Handshake) (name : Bytes) (rest : Bytes) : Type 0 where
  pub first : RawPacket
  pub first_raw : Bytes
  pub between : Bytes
  pub reads_first : read_packet bytes ≡ ok ((first, first_raw), between)
  pub is_handshake : parse_handshake first.contents ≡ ok hs
  pub second : RawPacket
  pub second_raw : Bytes
  pub reads_second : read_packet between ≡ ok ((second, second_raw), rest)
  pub is_start : (second.id ≡ 0) × (parse_login_start second.contents ≡ ok name)

-- What a dispatch to a login says of the connection.
pub record ToLogin (to_lowercase : Bytes → Bytes) (config : Config) (stream : Bytes)
    (hs : Handshake) (raw rest : Bytes) : Type 0 where
  pub packet : RawPacket
  pub reads : read_packet stream ≡ ok ((packet, raw), rest)
  pub parses : parse_handshake packet.contents ≡ ok hs
  pub expected :
      same_text (to_lowercase hs.server_address) (to_lowercase config.proxy.server_address) ≡ true
  pub login : hs.next_state ≡ 2

module _ (to_lowercase : Bytes → Bytes) (config : Config) where
  by_address-ToLogin :
      (stream : Bytes) (p : RawPacket) (raw1 rest1 : Bytes) {hs : Handshake} {raw rest : Bytes}
      → read_packet stream ≡ ok ((p, raw1), rest1)
      → (r : Result Handshake) → parse_handshake p.contents ≡ r
      → by_address to_lowercase config raw1 rest1 r ≡ to_login hs raw rest
      → ToLogin to_lowercase config stream hs raw rest
  unfolding by_address by_state
  by_address-ToLogin stream p raw1 rest1 e (err x) q h = cc
  by_address-ToLogin stream p raw1 rest1 e panic q h = cc
  by_address-ToLogin stream p raw1 rest1 {hs} {raw} {rest} e (ok hs1) q h = record {
    packet = p;
    reads = ground arith;
    parses = ground arith;
    expected = ground arith;
    login = ground arith;
  }

  by_packet-ToLogin :
      (stream : Bytes) {hs : Handshake} {raw rest : Bytes}
      → (r : Result ((RawPacket × Bytes) × Bytes)) → read_packet stream ≡ r
      → by_packet to_lowercase config r ≡ to_login hs raw rest
      → ToLogin to_lowercase config stream hs raw rest
  unfolding by_packet
  by_packet-ToLogin stream (err x) e h = cc
  by_packet-ToLogin stream panic e h = cc
  by_packet-ToLogin stream (ok ((p, raw1), rest1)) e h =
      by_address-ToLogin stream p raw1 rest1 e (parse_handshake p.contents) refl h

  pub dispatch-ToLogin :
      (stream : Bytes) {hs : Handshake} {raw rest : Bytes}
      → dispatch to_lowercase config stream ≡ to_login hs raw rest
      → ToLogin to_lowercase config stream hs raw rest
  unfolding dispatch
  dispatch-ToLogin stream h = by_packet-ToLogin stream (read_packet stream) refl h

-- What a login start that was accepted says of the client's bytes.
pub record Started (stream : Bytes) (l : LoginStart) : Type 0 where
  pub packet : RawPacket
  pub reads : read_packet stream ≡ ok ((packet, l.login_raw), l.rest)
  pub is_start : (packet.id ≡ 0) × (parse_login_start packet.contents ≡ ok l.username)

named-Started :
    (stream : Bytes) (p : RawPacket) (raw rest : Bytes) {l : LoginStart}
    → read_packet stream ≡ ok ((p, raw), rest)
    → p.id ≡ 0
    → (r : Result Bytes) → parse_login_start p.contents ≡ r
    → named raw rest r ≡ ok l
    → Started stream l
unfolding named
named-Started stream p raw rest e z (err x) q h = cc
named-Started stream p raw rest e z panic q h = cc
named-Started stream p raw rest {l} e z (ok name) q h = record {
  packet = p;
  reads = ground arith;
  is_start = (z, ground arith);
}

login_start-Started :
    (stream : Bytes) {l : LoginStart}
    → (r : Result ((RawPacket × Bytes) × Bytes)) → read_packet stream ≡ r
    → login_start r ≡ ok l
    → Started stream l
unfolding login_start
login_start-Started stream (err x) e h = cc
login_start-Started stream panic e h = cc
login_start-Started stream {l} (ok ((p, raw), rest)) e h = elim (Bool-cases (p.id == 0)) [
  | inl y ↦
      named-Started stream p raw rest e (ground arith) (parse_login_start p.contents) refl
        (ground arith)
  | inr n ↦ ground arith
]

pub read_login_start-Started :
    (stream : Bytes) {l : LoginStart} → read_login_start stream ≡ ok l → Started stream l
unfolding read_login_start
read_login_start-Started stream h = login_start-Started stream (read_packet stream) refl h

-- A server reads the packets that were relayed for a handshake and a login start, whatever bytes
-- are sent behind them.
pub Relayed-intro :
    (to_lowercase : Bytes → Bytes) (config : Config) (stream : Bytes) (hs : Handshake)
    (raw rest : Bytes) (l : LoginStart) (tail : Bytes)
    → ToLogin to_lowercase config stream hs raw rest
    → Started rest l
    → Relayed (raw ++ (l.login_raw ++ tail)) hs l.username tail
Relayed-intro to_lowercase config stream hs raw rest l tail t u =
    let (first, _) = read_packet_relays stream rest (l.login_raw ++ tail) t.packet raw t.reads in
    let (second, _) = read_packet_relays rest l.rest tail u.packet l.login_raw u.reads in
    record {
      first = t.packet;
      first_raw = raw;
      between = l.login_raw ++ tail;
      reads_first = first;
      is_handshake = t.parses;
      second = u.packet;
      second_raw = l.login_raw;
      reads_second = second;
      is_start = u.is_start;
    }

-- When a connection is dispatched to a login, its login start is read, and it is forwarded to the
-- end, the server reads from what it is sent the same handshake and the same user, then exactly the
-- client's bytes behind them, and the client gets the server's bytes; the handshake named the
-- configured address and asked for a login.
pub relay_faithful :
    (to_lowercase : Bytes → Bytes) (config : Config) (stream server : Bytes) (hs : Handshake)
    (raw rest : Bytes) (l : LoginStart) (link : Link) (es : List (Direction × CopyEvent))
    → dispatch to_lowercase config stream ≡ to_login hs raw rest
    → read_login_start rest ≡ ok l
    → (forward link raw l.login_raw l.rest server es).ended ≡ some (ok tt)
    → Relayed (forward link raw l.login_raw l.rest server es).to_server hs l.username l.rest
      × ((forward link raw l.login_raw l.rest server es).to_client ≡ server)
      × (hs.next_state ≡ 2)
      × (same_text (to_lowercase hs.server_address) (to_lowercase config.proxy.server_address)
          ≡ true)
relay_faithful to_lowercase config stream server hs raw rest l link es d s w =
    let t = dispatch-ToLogin to_lowercase config stream d in
    let (sent, back) = (forward-Delivered link raw l.login_raw l.rest server es).whole w in
    (
      rw sent (
          Relayed-intro to_lowercase config stream hs raw rest l l.rest t
            (read_login_start-Started rest s)),
      back,
      t.login,
      t.expected,
    )
