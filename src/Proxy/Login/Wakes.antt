-- ===== src/Proxy/Login/Wakes.antt =====
-- Which connections start the container.
use redoxide.Common.{◌≡◌, refl, Bool, true, false, Bytes, [], none, if◌then◌else◌, arith}
use redoxide.Outcome.{Result, ok, err, panic}
use redoxide.Protocol.Handshake.{Handshake}
use redoxide.Proxy.Connection.{
  Dispatch, refused, panicked, unknown_address, to_ping, to_login, dispatch, LoginStart,
  read_login_start,
}
use redoxide.Proxy.Connection.Relay.{dispatch-ToLogin, read_login_start-Started}
use redoxide.Proxy.Login.{
  Course, closed_with, await_stop, join_server, start_server, with_login_start, handle_login,
  with_dispatch, handle_connection_inner, handle_connection,
}
use redoxide.Proxy.Login.Safety.{Login}
use redoxide.State.{ServerState, stopped, is_stopped}
use redoxide.Status.{Json}
use redoxide.VersionCache.{CacheFormat, CacheDir}

is_stopped-eq : (x : ServerState) → is_stopped x ≡ true → x ≡ stopped
is_stopped-eq x h = ground arith

module _ (to_string : Json → Bytes) (format : CacheFormat) (dir : CacheDir)
    (to_lowercase : Bytes → Bytes) where
  start_server-starts :
      (c : Course) (raw : Bytes) (l : LoginStart)
      → (start_server to_string format dir c raw l).starts ≡ true
      → (await_stop c.stops ≡ true) × (c.at_check ≡ stopped)
  unfolding start_server
  start_server-starts c raw l h = split (await_stop c.stops) refl h
    where
      split :
          (b : Bool)
          → await_stop c.stops ≡ b
          → (if b
              then record (join_server to_string format dir c raw l) {
                starts = is_stopped c.at_check;
              }
              else closed_with [] none).starts
            ≡ true
          → (await_stop c.stops ≡ true) × (c.at_check ≡ stopped)
      split true e k = (e, is_stopped-eq c.at_check k)
      split false e k = cc

  with_login_start-starts :
      (c : Course) (stream : Bytes) (hs : Handshake) (raw rest : Bytes) (r : Result LoginStart)
      → dispatch to_lowercase c.shared.config stream ≡ to_login hs raw rest
      → read_login_start rest ≡ r
      → (with_login_start to_string format dir c raw r).starts ≡ true
      → (await_stop c.stops ≡ true) × (c.at_check ≡ stopped) × Login to_lowercase c stream
  unfolding with_login_start
  with_login_start-starts c stream hs raw rest (ok l) d e h =
      let (a, b) = start_server-starts c raw l h in
      (
        a,
        b,
        record {
          hs = hs;
          raw = raw;
          rest = rest;
          start = l;
          to = dispatch-ToLogin to_lowercase c.shared.config stream d;
          started = read_login_start-Started rest e;
        },
      )
  with_login_start-starts c stream hs raw rest (err x) d e h = cc
  with_login_start-starts c stream hs raw rest panic d e h = cc

  with_dispatch-starts :
      (c : Course) (stream : Bytes) (d : Dispatch)
      → dispatch to_lowercase c.shared.config stream ≡ d
      → (with_dispatch to_string format dir c d).starts ≡ true
      → (await_stop c.stops ≡ true) × (c.at_check ≡ stopped) × Login to_lowercase c stream
  unfolding with_dispatch handle_login
  with_dispatch-starts c stream (refused x) e h = cc
  with_dispatch-starts c stream panicked e h = cc
  with_dispatch-starts c stream unknown_address e h = cc
  with_dispatch-starts c stream (to_ping rest) e h = cc
  with_dispatch-starts c stream (to_login hs raw rest) e h =
      with_login_start-starts c stream hs raw rest (read_login_start rest) e refl h

  -- Only a connection that sends a handshake for a login to the configured address, and a login
  -- start behind it, starts the container, and only behind any stop in flight, from Stopped: no
  -- status ping, stray address or malformed packet wakes the server.
  pub connection_wakes :
      (c : Course) (stream : Bytes)
      → (handle_connection to_string format dir to_lowercase c stream).starts ≡ true
      → (await_stop c.stops ≡ true) × (c.at_check ≡ stopped) × Login to_lowercase c stream
  unfolding handle_connection handle_connection_inner
  connection_wakes c stream h =
      with_dispatch-starts c stream (dispatch to_lowercase c.shared.config stream) refl h
