-- ===== src/Proxy/Login/Decides.antt =====
-- What a login does by what it sees of the server state.
use redoxide.Common.{◌≡◌, ◌≢◌, refl, true, false, Bytes}
use redoxide.Outcome.{ok}
use redoxide.Protocol.Handshake.{Handshake}
use redoxide.Proxy.Connection.{LoginStart, read_login_start}
use redoxide.Proxy.Login.{
  Course, await_stop, after_wait, join_server, start_server, with_login_start, handle_login,
}
use redoxide.Proxy.Wait.{wait_for_server_with}
use redoxide.State.{ServerState, stopped, starting, running, stopping, is_stopped, is_running_state}
use redoxide.Status.{Json}
use redoxide.VersionCache.{CacheFormat, CacheDir}

not_running : (x : ServerState) → x ≢ running → is_running_state x ≡ false
not_running stopped h = refl
not_running starting h = refl
not_running running h = absurd (h refl)
not_running stopping h = refl

module _ (to_string : Json → Bytes) (format : CacheFormat) (dir : CacheDir) (c : Course)
    (raw : Bytes) where
  -- Behind any stop, the look for Stopped decides the start.
  pub handle_login-start :
      (hs : Handshake) (stream : Bytes) (l : LoginStart)
      → read_login_start stream ≡ ok l
      → await_stop c.stops ≡ true
      → handle_login to_string format dir c hs raw stream
        ≡ record (join_server to_string format dir c raw l) { starts = is_stopped c.at_check }
  unfolding handle_login with_login_start start_server
  handle_login-start hs stream l e go = rw (e, go) refl

  -- The look for Running decides the wait.
  pub join_server-wait :
      (l : LoginStart)
      → c.at_look ≢ running
      → join_server to_string format dir c raw l
        ≡ after_wait c raw l (wait_for_server_with to_string format dir c.rounds c.shared l.rest)
  unfolding join_server
  join_server-wait l h = rw (not_running c.at_look h) refl
