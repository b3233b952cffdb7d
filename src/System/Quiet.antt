-- ===== src/System/Quiet.antt =====
-- The tasks of the system when nothing new comes: the logins of src/proxy.rs that are there, and the
-- timers of src/state.rs; and how much they have left to do.
pub mod Rest
pub mod Goes
pub mod Comes
use redoxide.Common.{
  ℕ, ◌+◌, ◌-◌, ◌*◌, ◌^◌, ◌<◌, ◌≤◌, ◌≡◌, ◌&&◌, ◌==◌, refl, Bool, true, false, Option, Bytes, arith,
}
use redoxide.Common.Family.{assign, one_if, total, total-assign}
use redoxide.Config.{Config}
use redoxide.VersionCache.{CacheFormat}
use redoxide.State.{
  new, SharedState, set_state, take_timer, begin_session, drop_session, schedule_idle_shutdown,
  wake_timer, mark_stopping, finish_stop,
}
use redoxide.State.Work.{
  work, take_timer-work, schedule_idle_shutdown-work, wake_timer-work, mark_stopping-work,
  finish_stop-work,
}
use redoxide.System.{
  Login, absent, unchecked, cancelled, counted, locked, resolved, claiming, admitted, waiting,
  forwarding, System, leave, LoginStep, leave_stop, check_stop, take, begin, lock, resolve, claim,
  pass, start, forward_at_once, wait, probed, seen_running, give_up, disconnect, Step, by_login,
  schedule, wake, mark, finish, started, start_failed, find_down, set_down, adopt, look, initial,
  Reach, here, next,
}
use redoxide.System.Invariant.{Inv, initial-Inv, Reach-Inv}

-- A login does not come anew.
abbrev pub goes_on : {s : System} {i : ℕ} {l : Login} {t : System} → LoginStep s i l t → Bool
goes_on (leave_stop h) = false
goes_on (check_stop h) = false
goes_on st = true

-- No login comes, no container is adopted, and none is found down.
abbrev pub is_quiet : {n : ℕ} {s t : System} → Step n s t → Bool
is_quiet (by_login i lt st) = goes_on st
is_quiet (find_down h) = false
is_quiet (adopt h) = false
is_quiet st = true

unfoldable pub all_quiet : {n : ℕ} {s t : System} → Reach n s t → Bool
all_quiet here = true
all_quiet (next r st) = all_quiet r && is_quiet st

unfoldable pub steps : {n : ℕ} {s t : System} → Reach n s t → ℕ
steps here = 0
steps (next r st) = steps r + 1

-- The steps that a login can make, and the tasks that it spawns can make.
abbrev pub left_for : Login → ℕ
left_for absent = 0
left_for forwarding = 5
left_for waiting = 6
left_for admitted = 7
left_for claiming = 9
left_for resolved = 10
left_for locked = 11
left_for counted = 12
left_for cancelled = 13
left_for unchecked = 14

-- What is left to do: with `n` logins, their steps, those of the timers, and those of the tasks
-- that arm a timer, look at the player count, start the container, or report it down.
unfoldable pub ahead : ℕ → System → ℕ
ahead n s =
    total left_for n s.login
    + work s.shared
    + 4 * s.schedulers
    + 5 * s.adopters
    + s.starts
    + one_if s.found_down

module _ {n : ℕ} (i : ℕ) (lt : i < n) where
  moves :
      {l : Login} (f : ℕ → Login) (m : Login)
      → f i ≡ l
      → total left_for n (assign f i m) + left_for l ≡ total left_for n f + left_for m
  moves f m e = ground (arith, total-assign left_for n f i m lt)

  LoginStep-ahead :
      {s : System} {l : Login} {t : System}
      → s.login i ≡ l
      → (st : LoginStep s i l t) → goes_on st ≡ true
      → ahead n t < ahead n s
  unfolding ahead leave begin_session drop_session work take_timer
  LoginStep-ahead {s} e (leave_stop h) q = cc
  LoginStep-ahead {s} e (check_stop h) q = cc
  LoginStep-ahead {s} e take q = omega (arith, moves s.login cancelled e, take_timer-work s.shared)
  LoginStep-ahead {s} e begin q = omega (arith, moves s.login counted e)
  LoginStep-ahead {s} e (lock h) q = omega (arith, moves s.login locked e)
  LoginStep-ahead {s} e (resolve h) q = omega (arith, moves s.login resolved e)
  LoginStep-ahead {s} e (claim h) q = omega (arith, moves s.login claiming e)
  LoginStep-ahead {s} e (pass h) q = omega (arith, moves s.login admitted e)
  LoginStep-ahead {s} e start q = omega (arith, moves s.login admitted e)
  LoginStep-ahead {s} e (forward_at_once h) q = omega (arith, moves s.login forwarding e)
  LoginStep-ahead {s} e (wait h) q = omega (arith, moves s.login waiting e)
  LoginStep-ahead {s} e probed q = omega (arith, moves s.login forwarding e)
  LoginStep-ahead {s} e (seen_running h) q = omega (arith, moves s.login forwarding e)
  LoginStep-ahead {s} e give_up q = ground (arith, moves s.login absent e)
  LoginStep-ahead {s} e disconnect q = ground (arith, moves s.login absent e)

-- Every quiet step leaves less to do.
pub Step-ahead :
    {n : ℕ} {s t : System} (st : Step n s t) → Inv n s → is_quiet st ≡ true → ahead n t < ahead n s
unfolding ahead work
Step-ahead (by_login i lt st) v q = LoginStep-ahead i lt refl st q
Step-ahead {s} (schedule h) v q = omega (arith, h, schedule_idle_shutdown-work s.shared)
Step-ahead {s} (wake i e) v q = omega (arith, wake_timer-work s.shared v.timer i e)
Step-ahead {s} (mark i e) v q = omega (arith, mark_stopping-work s.shared v.timer i e)
Step-ahead {s} (finish i r e) v q = omega (arith, finish_stop-work s.shared v.timer i r e)
Step-ahead (started h) v q = omega (arith, h)
Step-ahead (start_failed h) v q = omega (arith, h)
Step-ahead (find_down h) v q = cc
Step-ahead (set_down h) v q = ground (arith, h)
Step-ahead (adopt h) v q = cc
Step-ahead (look h) v q = ground (arith, h)

Reach-ahead :
    {n : ℕ} {s t : System} (r : Reach n s t)
    → Inv n s
    → all_quiet r ≡ true
    → steps r + ahead n t ≤ ahead n s
unfolding all_quiet steps
Reach-ahead here v q = omega arith
Reach-ahead {n} (next r st) v q =
    omega (arith, Reach-ahead r v (ground arith), Step-ahead st (Reach-Inv v r) (ground arith))

-- From every state that is reached from the start, with fewer than 2 ^ 64 logins, a run in which no
-- login comes anew, no container is adopted and none is found down has no more steps than what is
-- left to do in that state.
pub quiet_run_ends :
    (format : CacheFormat) (config : Config) (file : Option Bytes) (n : ℕ) (s t : System)
    → n < 2 ^ 64
    → Reach n (initial (new format config file)) s
    → (r : Reach n s t) → all_quiet r ≡ true
    → steps r ≤ ahead n s
quiet_run_ends format config file n s t few before r q =
    omega (arith, Reach-ahead r (Reach-Inv (initial-Inv format config file n few) before) q)
