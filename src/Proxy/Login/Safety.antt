-- ===== src/Proxy/Login/Safety.antt =====
-- What any connection may do, whatever the client sends and whatever else happens.
use redoxide.Common.{◌≡◌, refl, ◌⊎◌, inl, inr, Bytes, [], ◌++◌, Bool-cases}
use redoxide.Outcome.{Result, ok, err, panic}
use redoxide.Protocol.Handshake.{Handshake}
use redoxide.Proxy.Connection.{
  Dispatch, refused, panicked, unknown_address, to_ping, to_login, dispatch, LoginStart,
  read_login_start,
}
use redoxide.Proxy.Connection.Relay.{
  Relayed, ToLogin, dispatch-ToLogin, Started, read_login_start-Started, Relayed-intro,
}
use redoxide.Proxy.Forward.Delivery.{forward-Delivered}
use redoxide.Proxy.Login.{
  Course, await_stop, after_wait, join_server, start_server, with_login_start, handle_login,
  with_dispatch, handle_connection_inner, handle_connection,
}
use redoxide.Proxy.Wait.{Next, again, finished, bail, wait_for_server_with}
use redoxide.Proxy.Wait.Leftover.{Leaves, wait_for_server_with-Leaves}
use redoxide.State.{is_running_state}
use redoxide.Status.{Json}
use redoxide.VersionCache.{CacheFormat, CacheDir}

-- The server got a front part of the relayed packets and a back part of the client's bytes.
pub record Fed (raw : Bytes) (l : LoginStart) (sent : Bytes) : Type 0 where
  pub tail : Bytes
  pub back : Leaves l.rest tail
  pub more : Bytes
  pub front : sent ++ more ≡ raw ++ (l.login_raw ++ tail)

module _ (to_string : Json → Bytes) (format : CacheFormat) (dir : CacheDir) where
  after_wait-Fed :
      (c : Course) (raw : Bytes) (l : LoginStart) (x : Next)
      → wait_for_server_with to_string format dir c.rounds c.shared l.rest ≡ x
      → ((after_wait c raw l x).to_server ≡ []) ⊎ Fed raw l (after_wait c raw l x).to_server
  unfolding after_wait
  after_wait-Fed c raw l (finished w) e =
      let d = forward-Delivered c.link raw l.login_raw w.stream c.server c.events in
      inr (record {
        tail = w.stream;
        back = wait_for_server_with-Leaves to_string l.rest format dir c.rounds c.shared w e;
        more = d.kept_up;
        front = d.prefix_up;
      })
  after_wait-Fed c raw l (bail x w) e = inl refl
  after_wait-Fed c raw l (again w) e = inl refl

  join_server-Fed :
      (c : Course) (raw : Bytes) (l : LoginStart)
      → ((join_server to_string format dir c raw l).to_server ≡ [])
        ⊎ Fed raw l (join_server to_string format dir c raw l).to_server
  unfolding join_server
  join_server-Fed c raw l = elim (Bool-cases (is_running_state c.at_look)) [
    | inl up ↦
        let d = forward-Delivered c.link raw l.login_raw l.rest c.server c.events in
        rw up
          (inr (record { tail = l.rest; back = ([], refl); more = d.kept_up; front = d.prefix_up }))
    | inr down ↦ rw down (after_wait-Fed c raw l _ refl)
  ]

  start_server-Fed :
      (c : Course) (raw : Bytes) (l : LoginStart)
      → ((start_server to_string format dir c raw l).to_server ≡ [])
        ⊎ Fed raw l (start_server to_string format dir c raw l).to_server
  unfolding start_server
  start_server-Fed c raw l = elim (Bool-cases (await_stop c.stops)) [
    | inl go ↦ rw go (join_server-Fed c raw l)
    | inr stay ↦ rw stay (inl refl)
  ]

-- A login that the configuration allows stands at the front of the client's bytes.
pub record Login (to_lowercase : Bytes → Bytes) (c : Course) (stream : Bytes) : Type 0 where
  pub hs : Handshake
  pub raw : Bytes
  pub rest : Bytes
  pub start : LoginStart
  pub to : ToLogin to_lowercase c.shared.config stream hs raw rest
  pub started : Started rest start

-- The client's bytes begin with a login that the configuration allows, and the server got a front
-- part of `bytes`: the two packets that were read for it, as they are relayed, from which a server
-- reads the same handshake and the same user, and then a back part of what follows them.
pub record Sent (to_lowercase : Bytes → Bytes) (c : Course) (stream sent : Bytes) : Type 0 where
  pub client : Login to_lowercase c stream
  pub tail : Bytes
  pub bytes : Bytes
  pub packets : bytes ≡ client.raw ++ (client.start.login_raw ++ tail)
  pub relays : Relayed bytes client.hs client.start.username tail
  pub back : Leaves client.start.rest tail
  pub more : Bytes
  pub front : sent ++ more ≡ bytes

module _ (to_string : Json → Bytes) (format : CacheFormat) (dir : CacheDir)
    (to_lowercase : Bytes → Bytes) (c : Course) (stream : Bytes) where
  Sent-intro :
      (sent : Bytes) (k : Login to_lowercase c stream)
      → (sent ≡ []) ⊎ Fed k.raw k.start sent
      → (sent ≡ []) ⊎ Sent to_lowercase c stream sent
  Sent-intro sent k (inl none_sent) = inl none_sent
  Sent-intro sent k (inr f) = inr (record {
    client = k;
    tail = f.tail;
    bytes = k.raw ++ (k.start.login_raw ++ f.tail);
    packets = refl;
    relays =
        Relayed-intro to_lowercase c.shared.config stream k.hs k.raw k.rest k.start f.tail k.to
          k.started;
    back = f.back;
    more = f.more;
    front = f.front;
  })

  with_login_start-Sent :
      (hs : Handshake) (raw rest : Bytes) (r : Result LoginStart)
      → ToLogin to_lowercase c.shared.config stream hs raw rest
      → read_login_start rest ≡ r
      → ((with_login_start to_string format dir c raw r).to_server ≡ [])
        ⊎ Sent to_lowercase c stream (with_login_start to_string format dir c raw r).to_server
  unfolding with_login_start
  with_login_start-Sent hs raw rest (ok l) t e =
      Sent-intro _
        (record {
          hs = hs;
          raw = raw;
          rest = rest;
          start = l;
          to = t;
          started = read_login_start-Started rest e;
        })
        (start_server-Fed to_string format dir c raw l)
  with_login_start-Sent hs raw rest (err x) t e = inl refl
  with_login_start-Sent hs raw rest panic t e = inl refl

  with_dispatch-Sent :
      (d : Dispatch)
      → dispatch to_lowercase c.shared.config stream ≡ d
      → ((with_dispatch to_string format dir c d).to_server ≡ [])
        ⊎ Sent to_lowercase c stream (with_dispatch to_string format dir c d).to_server
  unfolding with_dispatch handle_login
  with_dispatch-Sent (refused x) e = inl refl
  with_dispatch-Sent panicked e = inl refl
  with_dispatch-Sent unknown_address e = inl refl
  with_dispatch-Sent (to_ping rest) e = inl refl
  with_dispatch-Sent (to_login hs raw rest) e =
      with_login_start-Sent hs raw rest (read_login_start rest)
        (dispatch-ToLogin to_lowercase c.shared.config stream e) refl

  -- Whatever a client sends, and however the waits and the copies go, the server gets nothing; or
  -- the client's bytes begin with a handshake for a login to the configured address and a login
  -- start, and the server gets a front part of these two packets as they are relayed, from which it
  -- reads the same handshake and user, and of a back part of what the client sent behind them.
  pub connection_safe :
      ((handle_connection to_string format dir to_lowercase c stream).to_server ≡ [])
      ⊎ Sent to_lowercase c stream
          (handle_connection to_string format dir to_lowercase c stream).to_server
  unfolding handle_connection handle_connection_inner
  connection_safe = with_dispatch-Sent (dispatch to_lowercase c.shared.config stream) refl
