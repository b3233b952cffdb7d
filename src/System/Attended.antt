-- ===== src/System/Attended.antt =====
-- What will stop a container that is up with nobody connected, for the idle timers and the sessions
-- of src/state.rs.
use redoxide.Common.{ℕ, ◌^◌, ◌<◌, ◌≡◌, refl, Bool, true, false, Option, Bytes, arith, ◌||◌}
use redoxide.Common.Family.{assign_same, count-pos}
use redoxide.Config.{Config}
use redoxide.Outcome.{ok, err, panic}
use redoxide.VersionCache.{CacheFormat}
use redoxide.State.{
  ServerState, running, starting, SharedState, set_state, new, take_timer, schedule_idle_shutdown,
  drop_session, wake_timer, mark_stopping, finish_stop,
}
use redoxide.State.Timers.{is_live}
use redoxide.System.{
  Login, absent, unchecked, cancelled, counted, locked, resolved, claiming, admitted, waiting,
  forwarding, in_session, System, move, leave, LoginStep, leave_stop, check_stop, take, begin, lock,
  resolve, claim, pass, start, forward_at_once, wait, probed, seen_running, give_up, disconnect,
  Step, by_login, schedule, wake, mark, finish, started, start_failed, find_down, set_down, adopt,
  look, initial, Reach, here, next,
}
use redoxide.System.Invariant.{Inv, initial-Inv, Reach-Inv, Step-Inv}

-- The state says that the container is up, or on its way there.
abbrev pub is_up : ServerState → Bool
is_up running = true
is_up starting = true
is_up _ = false

-- What will stop the container, or have it stopped.
pub data Watched (n : ℕ) (s : System) : Type 0 where
  timed : (j : ℕ) → is_live (s.shared.tasks j) ≡ true → Watched n s
  scheduled : 0 < s.schedulers → Watched n s
  adopted : 0 < s.adopters → Watched n s
  -- its session will end one day
  arriving : (i : ℕ) → i < n → s.login i ≡ cancelled → Watched n s

abbrev pub Attended : ℕ → System → Type 0
Attended n s = is_up s.shared.server ≡ true → s.shared.player_count ≡ 0 → Watched n s

-- A stop that the step ends has failed.
abbrev pub fails_stop : {n : ℕ} {s t : System} → Step n s t → Bool
fails_stop (finish i (ok u) e) = false
fails_stop (finish i (err x) e) = true
fails_stop (finish i panic e) = true
fails_stop st = false

-- Some stop of a run has failed.
unfoldable pub stop_failed : {n : ℕ} {s t : System} → Reach n s t → Bool
stop_failed here = false
stop_failed (next r st) = stop_failed r || fails_stop st

-- With login `i` in its session somebody is counted.
not_empty :
    {A : Type 0} {n : ℕ} {t : System} (i : ℕ)
    → i < n
    → (l : Login) → Inv n t
    → t.login i ≡ l
    → in_session l ≡ true
    → t.shared.player_count ≡ 0
    → A
not_empty {n} {t} i lt l v e h z =
    absurd (omega (arith, v.players, z, count-pos in_session n t.login i lt (rw e h)))

-- The guard of the last session arms the timer.
left : (n : ℕ) (s : System) (i : ℕ) → (leave s i).shared.player_count ≡ 0 → Watched n (leave s i)
unfolding leave drop_session
left n s i z = scheduled (ground arith)

module _ {n : ℕ} {s : System} (i : ℕ) (lt : i < n) where
  -- A login that looks at the state is none of those that arrive.
  unmoved : s.login i ≡ absent → Watched n s → Watched n (move s i unchecked)
  unmoved e (timed j h) = timed j h
  unmoved e (scheduled h) = scheduled h
  unmoved e (adopted h) = adopted h
  unmoved e (arriving j lt' h) = arriving j lt' (ground arith)

  -- A login that holds a session after its step is counted.
  LoginStep-Attended :
      {l : Login} {t : System}
      → Inv n t
      → Attended n s
      → s.login i ≡ l
      → LoginStep s i l t
      → Attended n t
  LoginStep-Attended v a e (leave_stop h) up z = absurd (ground arith)
  LoginStep-Attended v a e (check_stop h) up z = unmoved e (a up z)
  LoginStep-Attended v a e take up z = arriving i lt (assign_same s.login i cancelled)
  LoginStep-Attended v a e begin up z =
      not_empty i lt counted v (assign_same s.login i counted) refl z
  LoginStep-Attended v a e (lock h) up z =
      not_empty i lt locked v (assign_same s.login i locked) refl z
  LoginStep-Attended v a e (resolve h) up z =
      not_empty i lt resolved v (assign_same s.login i resolved) refl z
  LoginStep-Attended v a e (claim h) up z =
      not_empty i lt claiming v (assign_same s.login i claiming) refl z
  LoginStep-Attended v a e (pass h) up z =
      not_empty i lt admitted v (assign_same s.login i admitted) refl z
  LoginStep-Attended v a e start up z =
      not_empty i lt admitted v (assign_same s.login i admitted) refl z
  LoginStep-Attended v a e (forward_at_once h) up z =
      not_empty i lt forwarding v (assign_same s.login i forwarding) refl z
  LoginStep-Attended v a e (wait h) up z =
      not_empty i lt waiting v (assign_same s.login i waiting) refl z
  LoginStep-Attended v a e probed up z =
      not_empty i lt forwarding v (assign_same s.login i forwarding) refl z
  LoginStep-Attended v a e (seen_running h) up z =
      not_empty i lt forwarding v (assign_same s.login i forwarding) refl z
  LoginStep-Attended v a e give_up up z = left n s i z
  LoginStep-Attended v a e disconnect up z = left n s i z

-- A new timer sleeps.
schedule-live : (s : SharedState) → is_live ((schedule_idle_shutdown s).tasks s.spawned) ≡ true
unfolding schedule_idle_shutdown take_timer
schedule-live s = ground arith

-- A timer that wakes to nobody goes on.
wake-live :
    (s : SharedState) (i : ℕ) → s.player_count ≡ 0 → is_live ((wake_timer i s).tasks i) ≡ true
unfolding wake_timer
wake-live s i z = ground arith

-- Tasks that are not a timer, and do not count.
undisturbed :
    {n : ℕ} {s : System} (x : ServerState) (starts : ℕ) (down : Bool)
    → Watched n s
    → Watched n (record s { shared = set_state x s.shared; starts = starts; found_down = down })
undisturbed x starts down (timed j h) = timed j h
undisturbed x starts down (scheduled h) = scheduled h
undisturbed x starts down (adopted h) = adopted h
undisturbed x starts down (arriving j lt h) = arriving j lt h

Step-Attended :
    {n : ℕ} {s t : System} (st : Step n s t)
    → Inv n s
    → fails_stop st ≡ false
    → Attended n s
    → Attended n t
unfolding finish_stop mark_stopping wake_timer
Step-Attended (by_login i lt st) v f a up z =
    LoginStep-Attended i lt (Step-Inv (by_login i lt st) v) a refl st up z
Step-Attended {s} (schedule h) v f a up z = timed s.shared.spawned (schedule-live s.shared)
Step-Attended {s} (wake i e) v f a up z = timed i (wake-live s.shared i z)
Step-Attended (mark i e) v f a up z = cc
Step-Attended (finish i (ok u) e) v f a up z = cc
Step-Attended (finish i (err x) e) v f a up z = cc
Step-Attended (finish i panic e) v f a up z = cc
Step-Attended {s} (started h) v f a up z = undisturbed s.shared.server _ _ (a up z)
Step-Attended (start_failed h) v f a up z = cc
Step-Attended {s} (find_down h) v f a up z = undisturbed s.shared.server _ _ (a up z)
Step-Attended (set_down h) v f a up z = cc
Step-Attended (adopt h) v f a up z = adopted (omega arith)
Step-Attended {s} (look h) v f a up z = scheduled (rw z (omega arith))

Reach-Attended :
    {n : ℕ} {s t : System} (r : Reach n s t)
    → Inv n s
    → Attended n s
    → stop_failed r ≡ false
    → Attended n t
unfolding stop_failed
Reach-Attended here v a f = a
Reach-Attended (next r st) v a f =
    Step-Attended st (Reach-Inv v r) (ground arith) (Reach-Attended r v a (ground arith))

-- In every state that is reached from the start by a run in which no stop of the container failed,
-- with fewer than 2 ^ 64 logins: where the state is Starting or Running and nobody is counted, there
-- is a live idle timer, a task that will arm one, an adoption that has yet to look at the player
-- count, or a login that has taken the timer and is about to be counted. The container is not left
-- running for nobody.
pub attended :
    (format : CacheFormat) (config : Config) (file : Option Bytes) (n : ℕ) (s : System)
    → n < 2 ^ 64
    → (r : Reach n (initial (new format config file)) s) → stop_failed r ≡ false
    → is_up s.shared.server ≡ true
    → s.shared.player_count ≡ 0
    → Watched n s
unfolding new initial
attended format config file n s few r =
    Reach-Attended r (initial-Inv format config file n few) (λ up z. cc)
