-- ===== src/System/Sessions/Once.antt =====
-- The sessions of the logins of one run, as connections of Proxy/Login.
use redoxide.Common.{ℕ, ◌+◌, ◌^◌, ◌<◌, ◌≤◌, ◌≡◌, ◌≢◌, refl, Bool, true, false, Bytes, Option, arith}
use redoxide.Common.Family.{one_if}
use redoxide.Config.{Config}
use redoxide.Outcome.{ok}
use redoxide.Protocol.Handshake.{Handshake}
use redoxide.Proxy.Connection.{LoginStart, read_login_start}
use redoxide.Proxy.Login.{Course, await_stop, join_server, after_wait, handle_login}
use redoxide.Proxy.Login.Decides.{handle_login-start, join_server-wait}
use redoxide.Proxy.Wait.{wait_for_server_with}
use redoxide.State.{new, is_stopped}
use redoxide.Status.{Json}
use redoxide.System.{
  Login, absent, unchecked, cancelled, counted, locked, resolved, claiming, admitted, waiting,
  forwarding, System, LoginStep, leave_stop, check_stop, take, begin, lock, resolve, claim, pass,
  start, forward_at_once, wait, probed, seen_running, give_up, disconnect, Step, by_login, schedule,
  wake, mark, finish, started, start_failed, find_down, set_down, adopt, look, initial, Reach, here,
  next,
}
use redoxide.System.Sessions.{Seen, see, see_step, seen, Sees, Reach-Sees}
use redoxide.System.Starts.{starts_by, starts_in, count_starts, count_downs, starts_once}
use native.Mathlib.Decide.{ℕ_discrete}
use redoxide.VersionCache.{CacheFormat, CacheDir}

-- The login is behind the block of `start_mutex`.
abbrev pub is_behind : Login → Bool
is_behind admitted = true
is_behind waiting = true
is_behind forwarding = true
is_behind _ = false

-- The course of a connection whose looks at the server state are those of a login.
abbrev pub with_seen : Course → Seen → Course
with_seen c o = record c { stops = o.stops; at_check = o.at_check; at_look = o.at_look }

Sees-behind :
    (l : Login) (o : Seen)
    → is_behind l ≡ true
    → Sees l o
    → (o.starts ≡ is_stopped o.at_check) × (await_stop o.stops ≡ true)
Sees-behind admitted o h v = v
Sees-behind forwarding o h v = v
Sees-behind waiting o h (behind, free, late) = (behind, free)
Sees-behind absent o h v = cc
Sees-behind unchecked o h v = cc
Sees-behind cancelled o h v = cc
Sees-behind counted o h v = cc
Sees-behind locked o h v = cc
Sees-behind resolved o h v = cc
Sees-behind claiming o h v = cc

see-starts :
    {s : System} {i : ℕ} {l : Login} {t : System} (st : LoginStep s i l t) (o : Seen)
    → one_if (see st o).starts ≤ one_if o.starts + starts_by st
see-starts start o = omega arith
see-starts (leave_stop h) o = omega arith
see-starts (check_stop h) o = omega arith
see-starts take o = omega arith
see-starts begin o = omega arith
see-starts (lock h) o = omega arith
see-starts (resolve h) o = omega arith
see-starts (claim h) o = omega arith
see-starts (pass h) o = omega arith
see-starts (forward_at_once h) o = omega arith
see-starts (wait h) o = omega arith
see-starts probed o = omega arith
see-starts (seen_running h) o = omega arith
see-starts give_up o = omega arith
see-starts disconnect o = omega arith

-- Two logins have not both started the container in one step.
two_steps :
    {n : ℕ} {s t : System} (i j : ℕ) (st : Step n s t) (a b : Seen) (m : ℕ)
    → i ≢ j
    → one_if a.starts + one_if b.starts ≤ m
    → one_if (see_step i st a).starts + one_if (see_step j st b).starts ≤ m + starts_in st
two_steps i j (by_login k lt st) a b m ne h = ground (arith, see-starts st a, see-starts st b)
two_steps i j (schedule e) a b m ne h = omega (arith, h)
two_steps i j (wake k e) a b m ne h = omega (arith, h)
two_steps i j (mark k e) a b m ne h = omega (arith, h)
two_steps i j (finish k r e) a b m ne h = omega (arith, h)
two_steps i j (started e) a b m ne h = omega (arith, h)
two_steps i j (start_failed e) a b m ne h = omega (arith, h)
two_steps i j (find_down e) a b m ne h = omega (arith, h)
two_steps i j (set_down e) a b m ne h = omega (arith, h)
two_steps i j (adopt e) a b m ne h = omega (arith, h)
two_steps i j (look e) a b m ne h = omega (arith, h)

two_started :
    {n : ℕ} {s t : System} (i j : ℕ) (r : Reach n s t)
    → i ≢ j
    → one_if (seen i r).starts + one_if (seen j r).starts ≤ count_starts r
unfolding seen count_starts
two_started i j here ne = omega arith
two_started i j (next r st) ne =
    two_steps i j st (seen i r) (seen j r) (count_starts r) ne (two_started i j r ne)

module _ (to_string : Json → Bytes) (format : CacheFormat) (dir : CacheDir) (config : Config)
    (file : Option Bytes) {n : ℕ} {t : System}
    (r : Reach n (initial (new format config file)) t) where
  initial-Sees : (i : ℕ) → Sees (t.login i) (seen i r)
  unfolding initial
  initial-Sees i = Reach-Sees i r refl

  -- In a run from the start, take a login that is behind the block of `start_mutex`, and any course
  -- of a connection whose looks at the server state are those of this login, with a login start
  -- that is read. Then `handle_login` starts the container exactly where the run has a step of this
  -- login that does; and where the login of the run waits, it goes through the wait for the server.
  pub handle_login-seen :
      (i : ℕ)
      → is_behind (t.login i) ≡ true
      → (c : Course) (hs : Handshake) (raw stream : Bytes) (l : LoginStart)
      → read_login_start stream ≡ ok l
      → (handle_login to_string format dir (with_seen c (seen i r)) hs raw stream
          ≡ record (join_server to_string format dir (with_seen c (seen i r)) raw l) {
            starts = (seen i r).starts;
          })
        × (t.login i ≡ waiting
            → join_server to_string format dir (with_seen c (seen i r)) raw l
              ≡ after_wait
                  (with_seen c (seen i r))
                  raw
                  l
                  (wait_for_server_with to_string format dir c.rounds c.shared l.rest))
  handle_login-seen i h c hs raw stream l e =
      let (behind, free) = Sees-behind (t.login i) (seen i r) h (initial-Sees i) in
      let d = with_seen c (seen i r) in
      (
        rw behind (handle_login-start to_string format dir d raw hs stream l e free),
        λ waits. join_server-wait to_string format dir d raw l (rw waits at (initial-Sees i)).2,
      )

  -- In a run from the start that never publishes that the container is down, with fewer than
  -- 2 ^ 64 logins: of the sessions of logins behind the block of `start_mutex`, whose looks at the
  -- server state are those of their logins, only one starts the container.
  pub one_session_starts :
      n < 2 ^ 64
      → count_downs r ≡ 0
      → (i j : ℕ) → is_behind (t.login i) ≡ true
      → is_behind (t.login j) ≡ true
      → (c d : Course) (hs ks : Handshake) (raw row stream bytes : Bytes) (l m : LoginStart)
      → read_login_start stream ≡ ok l
      → read_login_start bytes ≡ ok m
      → (handle_login to_string format dir (with_seen c (seen i r)) hs raw stream).starts ≡ true
      → (handle_login to_string format dir (with_seen d (seen j r)) ks row bytes).starts ≡ true
      → i ≡ j
  one_session_starts few z i j h k c d hs ks raw row stream bytes l m e f a b =
      elim (ℕ_discrete i j) [
        | yes same ↦ same
        | no other ↦
            let x : (seen i r).starts ≡ true =
              rw (handle_login-seen i h c hs raw stream l e).0 at a in
            let y : (seen j r).starts ≡ true =
              rw (handle_login-seen j k d ks row bytes m f).0 at b in
            absurd (
              ground (
                arith,
                z,
                two_started i j r other,
                x,
                y,
                starts_once format config file n _ t few here r,
              ))
      ]
