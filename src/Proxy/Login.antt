-- ===== src/Proxy/Login.antt =====
-- handle_login of src/proxy.rs, and the whole of a connection: handle_connection and
-- handle_connection_inner.
pub mod Safety
pub mod Wakes
pub mod Complete
pub mod Failure
pub mod Probed
pub mod Decides
use redoxide.Common.{
  Bool, true, false, Bytes, List, [], ◌∷◌, ◌++◌, Option, none, some, if◌then◌else◌,
}
use redoxide.Outcome.{Error, Result, ok, err, panic}
use redoxide.Protocol.Handshake.{Handshake}
use redoxide.Proxy.Connection.{
  Served, handle_ping, Dispatch, refused, panicked, unknown_address, to_ping, to_login, dispatch,
  LoginStart, read_login_start,
}
use redoxide.Proxy.Forward.{CopyEvent, Direction, Link, Forwarded, forward}
use redoxide.Proxy.Wait.{Round, Next, again, finished, bail, wait_for_server_with}
use redoxide.State.{
  ServerState, stopped, running, is_stopped, is_stopping, is_running_state, SharedState,
}
use redoxide.Status.{Json}
use redoxide.VersionCache.{CacheFormat, CacheDir}

-- What one connection meets: what other tasks and the network do in its course.
pub record Course : Type 0 where
  -- the shared state at a status response, and where the wait subscribes
  pub shared : SharedState
  pub writes_status : Bool
  pub writes_ping : Bool
  -- the server state at each look in the wait for the end of a stop
  pub stops : List ServerState
  -- the server state at the look for Stopped, and at the look for Running
  pub at_check : ServerState
  pub at_look : ServerState
  pub rounds : List Round
  pub link : Link
  -- what the server sends
  pub server : Bytes
  pub events : List (Direction × CopyEvent)

-- What was written to either side, whether `docker.start` was spawned, and the result; none where
-- the course stops before the end.
pub record Session : Type 0 where
  pub to_client : Bytes
  pub to_server : Bytes
  pub starts : Bool
  pub ended : Option (Result (Unit {0}))

abbrev pub closed_with : Bytes → Option (Result (Unit {0})) → Session
closed_with written r = record { to_client = written; to_server = []; starts = false; ended = r }

-- Does a look find that no stop is in flight?
abbrev pub await_stop : List ServerState → Bool
await_stop [] = false
await_stop (s ∷ ss) = if is_stopping s then await_stop ss else true

abbrev pub relayed : Bytes → Forwarded → Session
relayed written f = record {
  to_client = written ++ f.to_client;
  to_server = f.to_server;
  starts = false;
  ended = f.ended;
}

-- Behind the wait, with the client's bytes that it left.
pub after_wait : Course → Bytes → LoginStart → Next → Session
after_wait c raw l (finished w) =
    relayed w.written (forward c.link raw l.login_raw w.stream c.server c.events)
after_wait c raw l (bail e w) = closed_with w.written (some (err e))
after_wait c raw l (again w) = closed_with w.written none

module _ (to_string : Json → Bytes) (format : CacheFormat) (dir : CacheDir) where
  -- Behind the block of `start_mutex`.
  pub join_server : Course → Bytes → LoginStart → Session
  unfolding after_wait
  join_server c raw l =
      if is_running_state c.at_look
      then relayed [] (forward c.link raw l.login_raw l.rest c.server c.events)
      else after_wait c raw l (wait_for_server_with to_string format dir c.rounds c.shared l.rest)

  -- The block, with its wait for a stop that is in flight.
  pub start_server : Course → Bytes → LoginStart → Session
  start_server c raw l =
      if await_stop c.stops
      then record (join_server c raw l) { starts = is_stopped c.at_check }
      else closed_with [] none

  pub with_login_start : Course → Bytes → Result LoginStart → Session
  with_login_start c raw (ok l) = start_server c raw l
  with_login_start c raw (err e) = closed_with [] (some (err e))
  with_login_start c raw panic = closed_with [] (some panic)

  pub handle_login : Course → Handshake → Bytes → Bytes → Session
  handle_login c hs raw stream = with_login_start c raw (read_login_start stream)

  pub with_dispatch : Course → Dispatch → Session
  with_dispatch c (refused e) = closed_with [] (some (err e))
  with_dispatch c panicked = closed_with [] (some panic)
  with_dispatch c unknown_address = closed_with [] (some (ok tt))
  with_dispatch c (to_ping rest) =
      let s = handle_ping to_string c.writes_status c.writes_ping c.shared rest in
      closed_with s.written (some s.outcome)
  with_dispatch c (to_login hs raw rest) = handle_login c hs raw rest

  module _ (to_lowercase : Bytes → Bytes) where
    pub handle_connection_inner : Course → Bytes → Session
    handle_connection_inner c stream =
        with_dispatch c (dispatch to_lowercase c.shared.config stream)

-- The caller logs an error and drops it.
pub logged : Option (Result (Unit {0})) → Option (Result (Unit {0}))
logged (some (err e)) = some (ok tt)
logged r = r

pub handle_connection :
    (Json → Bytes) → CacheFormat → CacheDir → (Bytes → Bytes) → Course → Bytes → Session
handle_connection to_string format dir to_lowercase c stream =
    let s = handle_connection_inner to_string format dir to_lowercase c stream in
    record s { ended = logged s.ended }
