-- ===== src/Proxy/Login/Failure.antt =====
-- A login whose wait for the server fails.
use redoxide.Common.{◌≡◌, refl, true, false, Bytes, [], ◌++◌, some, if◌then◌else◌}
use redoxide.Outcome.{Error, ok}
use redoxide.Protocol.Handshake.{Handshake}
use redoxide.Proxy.Connection.{to_login, dispatch, LoginStart, read_login_start}
use redoxide.Proxy.Login.{
  Course, await_stop, after_wait, join_server, start_server, with_login_start, handle_login,
  with_dispatch, handle_connection_inner, handle_connection, logged,
}
use redoxide.Proxy.Wait.{Wait, bail, wait_for_server_with}
use redoxide.Proxy.Wait.Keepalive.{queries, wait_told}
use redoxide.Proxy.Wait.Rule.{is_told, farewell}
use redoxide.State.{is_stopped, is_running_state}
use redoxide.Status.{Json}
use redoxide.VersionCache.{CacheFormat, CacheDir}

-- A login whose wait fails is not forwarded: the server gets nothing, the client gets the queries
-- that were sent, and then the disconnect packet where the start failed or the deadline passed; the
-- error is logged and goes no further, and the container was started if it was Stopped.
pub handle_connection-bail :
    (to_string : Json → Bytes) (format : CacheFormat) (dir : CacheDir)
    (to_lowercase : Bytes → Bytes) (c : Course) (stream : Bytes) (hs : Handshake) (raw rest : Bytes)
    (l : LoginStart) (e : Error) (w : Wait)
    → dispatch to_lowercase c.shared.config stream ≡ to_login hs raw rest
    → read_login_start rest ≡ ok l
    → await_stop c.stops ≡ true
    → is_running_state c.at_look ≡ false
    → wait_for_server_with to_string format dir c.rounds c.shared l.rest ≡ bail e w
    → handle_connection to_string format dir to_lowercase c stream ≡ record {
      to_client = queries w.sent ++ (if is_told e then farewell to_string else []);
      to_server = [];
      starts = is_stopped c.at_check;
      ended = some (ok tt);
    }
unfolding handle_connection handle_connection_inner with_dispatch handle_login with_login_start
    start_server join_server after_wait logged
handle_connection-bail to_string format dir to_lowercase c stream hs raw rest l e w d s go not_up
      b =
    let told = wait_told to_string format dir c.rounds c.shared l.rest e w b in
    rw (d, s, go, not_up, b, told) refl
