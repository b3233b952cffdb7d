-- ===== src/System/Invariant.antt =====
-- What holds in every reachable state: the player count, the start mutex, the idle timer.
use redoxide.Common.{ℕ, ◌+◌, ◌^◌, ◌<◌, ◌≡◌, ◌∙◌, sym, refl, Bool, true, Option, some, Bytes, arith}
use redoxide.Common.Family.{assign, one_if, count, count-assign, count-le, count-eq-zero}
use redoxide.Config.{Config}
use redoxide.VersionCache.{CacheFormat}
use redoxide.State.{
  new, SharedState, stopped, running, take_timer, schedule_idle_shutdown, begin_session,
  drop_session, wake_timer, mark_stopping, finish_stop,
}
use redoxide.State.Timers.{
  is_live, OneTimer, take_timer-OneTimer, set_state-OneTimer, schedule_idle_shutdown-OneTimer,
  begin_session-OneTimer, drop_session-OneTimer, wake_timer-OneTimer, mark_stopping-OneTimer,
  finish_stop-OneTimer,
}
use redoxide.System.{
  Login, absent, unchecked, cancelled, counted, locked, resolved, claiming, admitted, waiting,
  forwarding, in_session, in_mutex, System, leave, LoginStep, leave_stop, check_stop, take, begin,
  lock, resolve, claim, pass, start, forward_at_once, wait, probed, seen_running, give_up,
  disconnect, Step, by_login, schedule, wake, mark, finish, started, start_failed, find_down,
  set_down, adopt, look, initial, Reach, here, next,
}

pub record Inv (n : ℕ) (s : System) : Type 0 where
  pub few : n < 2 ^ 64
  -- the players are the sessions
  pub players : s.shared.player_count ≡ count in_session n s.login
  -- the mutex is held by the one login that is in its block
  pub excluded : (i : ℕ) → in_mutex (s.login i) ≡ true → s.start_mutex ≡ some i
  pub held : (i : ℕ) → s.start_mutex ≡ some i → in_mutex (s.login i) ≡ true
  pub timer : OneTimer s.shared

module _ {n : ℕ} {s : System} (v : Inv n s) (i : ℕ) (lt : i < n) where
  -- The count of the sessions after a move of login `i`.
  counts :
      (l : Login)
      → count in_session n (assign s.login i l) + one_if (in_session (s.login i))
        ≡ count in_session n s.login + one_if (in_session l)
  counts l = count-assign in_session n s.login i l lt

  room : count in_session n (assign s.login i counted) < 2 ^ 64
  room = omega (arith, v.few, count-le in_session n (assign s.login i counted))

  LoginStep-players :
      {l : Login} {t : System}
      → s.login i ≡ l
      → LoginStep s i l t
      → t.shared.player_count ≡ count in_session n t.login
  unfolding leave begin_session drop_session take_timer
  LoginStep-players e (leave_stop h) = ground (arith, v.players, counts cancelled)
  LoginStep-players e (check_stop h) = ground (arith, v.players, counts unchecked)
  LoginStep-players e take = ground (arith, v.players, counts cancelled)
  LoginStep-players e begin = ground (arith, v.players, counts counted, room)
  LoginStep-players e (lock h) = ground (arith, v.players, counts locked)
  LoginStep-players e (resolve h) = ground (arith, v.players, counts resolved)
  LoginStep-players e (claim h) = ground (arith, v.players, counts claiming)
  LoginStep-players e (pass h) = ground (arith, v.players, counts admitted)
  LoginStep-players e start = ground (arith, v.players, counts admitted)
  LoginStep-players e (forward_at_once h) = ground (arith, v.players, counts forwarding)
  LoginStep-players e (wait h) = ground (arith, v.players, counts waiting)
  LoginStep-players e probed = ground (arith, v.players, counts forwarding)
  LoginStep-players e (seen_running h) = ground (arith, v.players, counts forwarding)
  LoginStep-players e give_up = ground (arith, v.players, counts absent)
  LoginStep-players e disconnect = ground (arith, v.players, counts absent)

  LoginStep-excluded :
      {l : Login} {t : System}
      → s.login i ≡ l
      → LoginStep s i l t
      → (j : ℕ) → in_mutex (t.login j) ≡ true
      → t.start_mutex ≡ some j
  unfolding leave
  LoginStep-excluded e (lock h) j m = ground (arith, v.excluded j)
  LoginStep-excluded e st j m = ground (arith, v.excluded j, v.excluded i)

  LoginStep-held :
      {l : Login} {t : System}
      → s.login i ≡ l
      → LoginStep s i l t
      → (j : ℕ) → t.start_mutex ≡ some j
      → in_mutex (t.login j) ≡ true
  unfolding leave
  LoginStep-held e (lock h) j m = ground (arith, v.held j)
  LoginStep-held e st j m = ground (arith, v.held j, v.held i)

  LoginStep-timer : {l : Login} {t : System} → LoginStep s i l t → OneTimer t.shared
  unfolding leave
  LoginStep-timer (leave_stop h) = v.timer
  LoginStep-timer (check_stop h) = v.timer
  LoginStep-timer take = take_timer-OneTimer s.shared v.timer
  LoginStep-timer begin = begin_session-OneTimer s.shared v.timer
  LoginStep-timer start = set_state-OneTimer s.shared v.timer _
  LoginStep-timer probed = set_state-OneTimer s.shared v.timer _
  LoginStep-timer give_up = drop_session-OneTimer s.shared v.timer
  LoginStep-timer disconnect = drop_session-OneTimer s.shared v.timer
  LoginStep-timer _ = v.timer

-- A step that moves no login keeps the invariant if it keeps the count and the timers.
others :
    {n : ℕ} {s : System}
    → Inv n s
    → (x : SharedState) (schedulers adopters starts : ℕ) (found_down : Bool)
    → x.player_count ≡ s.shared.player_count
    → OneTimer x
    → Inv n (record {
      shared = x;
      login = s.login;
      start_mutex = s.start_mutex;
      schedulers = schedulers;
      adopters = adopters;
      starts = starts;
      found_down = found_down;
    })
others v x a d b c e w = record {
  few = v.few;
  players = e ∙ v.players;
  excluded = v.excluded;
  held = v.held;
  timer = w;
}

-- Every step, of whatever task, keeps the invariant.
pub Step-Inv : {n : ℕ} {s t : System} → Step n s t → Inv n s → Inv n t
unfolding wake_timer mark_stopping finish_stop schedule_idle_shutdown take_timer
Step-Inv (by_login i lt st) v = record {
  few = v.few;
  players = LoginStep-players v i lt refl st;
  excluded = LoginStep-excluded v i lt refl st;
  held = LoginStep-held v i lt refl st;
  timer = LoginStep-timer v i lt st;
}
Step-Inv {s} (schedule h) v =
    others v _ _ _ _ _ refl (schedule_idle_shutdown-OneTimer s.shared v.timer)
Step-Inv {s} (wake i e) v = others v _ _ _ _ _ refl (wake_timer-OneTimer s.shared v.timer i e)
Step-Inv {s} (mark i e) v = others v _ _ _ _ _ refl (mark_stopping-OneTimer s.shared v.timer i e)
Step-Inv {s} (finish i r e) v = others v _ _ _ _ _ refl (finish_stop-OneTimer s.shared v.timer i r)
Step-Inv (started h) v = others v _ _ _ _ _ refl v.timer
Step-Inv {s} (start_failed h) v =
    others v _ _ _ _ _ refl (set_state-OneTimer s.shared v.timer stopped)
Step-Inv (find_down h) v = others v _ _ _ _ _ refl v.timer
Step-Inv {s} (set_down h) v = others v _ _ _ _ _ refl (set_state-OneTimer s.shared v.timer stopped)
Step-Inv {s} (adopt h) v = others v _ _ _ _ _ refl (set_state-OneTimer s.shared v.timer running)
Step-Inv (look h) v = others v _ _ _ _ _ refl v.timer

-- The start: the state that `SharedState::new` makes.
pub initial-Inv :
    (format : CacheFormat) (config : Config) (file : Option Bytes) (n : ℕ)
    → n < 2 ^ 64
    → Inv n (initial (new format config file))
unfolding initial new
initial-Inv format config file n few = record {
  few = few;
  players = sym (count-eq-zero in_session n _ (λ i. refl));
  excluded = λ i e. cc;
  held = λ i e. cc;
  timer = record { named = λ j h. cc; later = λ j h. refl };
}

pub Reach-Inv : {n : ℕ} {s t : System} → Inv n s → Reach n s t → Inv n t
Reach-Inv v here = v
Reach-Inv v (next r st) = Step-Inv st (Reach-Inv v r)

module _ {n : ℕ} (format : CacheFormat) (config : Config) (file : Option Bytes)
    (few : n < 2 ^ 64) where
  Reach-new : {t : System} → Reach n (initial (new format config file)) t → Inv n t
  Reach-new = Reach-Inv (initial-Inv format config file n few)

  -- In every state that is reached from the start, with fewer than 2 ^ 64 logins in whatever
  -- interleaving, the player count is the number of logins that hold a session.
  pub players_counted :
      {t : System}
      → Reach n (initial (new format config file)) t
      → t.shared.player_count ≡ count in_session n t.login
  players_counted r = (Reach-new r).players

  -- Two logins are never in the block of `start_mutex` together.
  pub start_excluded :
      {t : System}
      → Reach n (initial (new format config file)) t
      → (i j : ℕ) → in_mutex (t.login i) ≡ true
      → in_mutex (t.login j) ≡ true
      → i ≡ j
  start_excluded r i j a b = let v = Reach-new r in cc (v.excluded i a, v.excluded j b)

  -- At most one idle timer is live: of the tasks that were spawned, only the one that the state
  -- names can still sleep, or stop the container and report it.
  pub one_timer :
      {t : System}
      → Reach n (initial (new format config file)) t
      → (i : ℕ) → is_live (t.shared.tasks i) ≡ true
      → t.shared.idle_timer ≡ some i
  one_timer r i a = (Reach-new r).timer.named i a
