-- ===== src/Proxy/Forward.antt =====
-- forward of src/proxy.rs: the relayed packets, then the two copies that run side by side.
pub mod Copies
pub mod Delivery
pub mod Completion
use redoxide.Common.{
  ℕ, Bool, true, false, not, ◌&&◌, Bytes, List, [], ◌∷◌, ◌++◌, Option, none, some, take, drop,
  if◌then◌else◌,
}
use redoxide.Outcome.{Result, ok, err, connection_failed, write_failed, copy_failed}

-- One direction, a `tokio::io::copy` and the `shutdown` behind it: what its reader still yields
-- before it ends, what stands in its buffer, what was written, and whether it is through.
pub record Copy : Type 0 where
  pub unread : Bytes
  pub held : Bytes
  pub written : Bytes
  pub closed : Bool

-- What a direction does next: it reads some bytes into its buffer, writes some from it, shuts its
-- writer down, or meets an error in one of these.
pub data CopyEvent : Type 0 where
  fill flush : ℕ → CopyEvent
  close fail : CopyEvent

abbrev pub is_empty : Bytes → Bool
is_empty [] = true
is_empty _ = false

-- The writer is shut down behind the last byte. `none` is an error.
copy_open : CopyEvent → Copy → Option Copy
copy_open (fill n) c =
    some (record c { unread = drop n c.unread; held = c.held ++ take n c.unread })
copy_open (flush n) c =
    some (record c { held = drop n c.held; written = c.written ++ take n c.held })
copy_open close c = some (record c { closed = is_empty c.unread && is_empty c.held })
copy_open fail c = none

-- A direction that is through does nothing more.
unfoldable pub copy_step : CopyEvent → Copy → Option Copy
unfolding copy_open
copy_step e c = if c.closed then some c else copy_open e c

pub data Direction : Type 0 where
  up down : Direction

-- From the client to the server, and back.
pub record Transfer : Type 0 where
  pub upload : Copy
  pub download : Copy

-- `try_join!`: both are through, or one has failed, or neither.
pub data Join : Type 0 where
  joined broken moving : Transfer → Join

join : (Transfer → Join) → Transfer → Join
join rest t = if t.upload.closed && t.download.closed then joined t else rest t

advance : (Transfer → Join) → Direction → Option Copy → Transfer → Join
unfolding join
advance rest up (some c) t = join rest (record t { upload = c })
advance rest down (some c) t = join rest (record t { download = c })
advance rest d none t = broken t

-- The two directions under a schedule of what each does next; `moving` where it stops.
unfoldable pub join_loop : List (Direction × CopyEvent) → Transfer → Join
unfolding advance
join_loop [] t = moving t
join_loop ((up, e) ∷ es) t = advance (λ t'. join_loop es t') up (copy_step e t.upload) t
join_loop ((down, e) ∷ es) t = advance (λ t'. join_loop es t') down (copy_step e t.download) t

-- The connection to the server: whether it is made, and where a `write_all` of a relayed packet
-- fails, how many bytes it had written.
pub record Link : Type 0 where
  pub connects : Bool
  pub handshake_fails : Option ℕ
  pub login_fails : Option ℕ

-- What was written to either side, and the result; none while the copies go on.
pub record Forwarded : Type 0 where
  pub to_server : Bytes
  pub to_client : Bytes
  pub ended : Option (Result (Unit {0}))

abbrev pub begin_copies : Bytes → Bytes → Bytes → Transfer
begin_copies sent client server = record {
  upload = record { unread = client; held = []; written = sent; closed = false };
  download = record { unread = server; held = []; written = []; closed = false };
}

abbrev pub reported : Transfer → Option (Result (Unit {0})) → Forwarded
reported t r = record { to_server = t.upload.written; to_client = t.download.written; ended = r }

abbrev pub outcome_of : Join → Forwarded
outcome_of (joined t) = reported t (some (ok tt))
outcome_of (broken t) = reported t (some (err copy_failed))
outcome_of (moving t) = reported t none

abbrev pub cut_off : Bytes → Forwarded
cut_off sent = record { to_server = sent; to_client = []; ended = some (err write_failed) }

relay_login : Option ℕ → Bytes → Bytes → Bytes → Bytes → List (Direction × CopyEvent) → Forwarded
relay_login (some k) handshake_raw login_raw client server events =
    cut_off (handshake_raw ++ take k login_raw)
relay_login none handshake_raw login_raw client server events =
    outcome_of (join_loop events (begin_copies (handshake_raw ++ login_raw) client server))

relay_packets :
    Option ℕ → Option ℕ → Bytes → Bytes → Bytes → Bytes → List (Direction × CopyEvent) → Forwarded
unfolding relay_login
relay_packets (some k) login_fails handshake_raw login_raw client server events =
    cut_off (take k handshake_raw)
relay_packets none login_fails handshake_raw login_raw client server events =
    relay_login login_fails handshake_raw login_raw client server events

-- The client's bytes are those that were not read yet, up to its end; so are the server's.
unfoldable pub forward :
    Link → Bytes → Bytes → Bytes → Bytes → List (Direction × CopyEvent) → Forwarded
unfolding relay_packets
forward link handshake_raw login_raw client server events =
    if not link.connects
    then record { to_server = []; to_client = []; ended = some (err connection_failed) }
    else relay_packets link.handshake_fails link.login_fails handshake_raw login_raw client server
        events
