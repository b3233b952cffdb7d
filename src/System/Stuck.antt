-- ===== src/System/Stuck.antt =====
-- A state of the system that no step leaves: the server state is Stopping with no task left that
-- would report the end of the stop, and a login waits for that end inside `start_mutex`.
use redoxide.Common.{ℕ, ◌<◌, ◌≡◌, ◌≢◌, refl, Bool, true, false, Option, arith}
use redoxide.Common.Family.{assign, count-pos}
use redoxide.Config.{Config}
use redoxide.State.{
  stopping, SharedState, take_timer, schedule_idle_shutdown, begin_session, drop_session,
  wake_timer,
}
use redoxide.State.Cuts.{is_busy}
use redoxide.System.{
  Login, locked, claiming, admitted, waiting, in_session, System, leave, LoginStep, leave_stop,
  check_stop, take, begin, lock, resolve, claim, pass, start, forward_at_once, wait, probed,
  seen_running, give_up, disconnect, Step, by_login, schedule, wake, mark, finish, started,
  start_failed, find_down, set_down, adopt, look, Reach, here, next,
}
use redoxide.System.Invariant.{Inv, Reach-Inv}

-- A login that may yet set the server state, or is about to look whether to wait for the server.
abbrev pub may_set : Login → Bool
may_set claiming = true
may_set admitted = true
may_set waiting = true
may_set _ = false

pub record Stuck (n : ℕ) (s : System) (i : ℕ) : Type 0 where
  pub one : i < n
  pub blocked : s.login i ≡ locked
  pub server : s.shared.server ≡ stopping
  pub quiet : (j : ℕ) → is_busy (s.shared.tasks j) ≡ false
  pub calm : (j : ℕ) → may_set (s.login j) ≡ false
  pub none_starts : s.starts ≡ 0
  pub none_down : s.found_down ≡ false

module _ {n : ℕ} {s : System} (v : Inv n s) {i : ℕ} (k : Stuck n s i) where
  someone : 0 < s.shared.player_count
  someone = rw v.players (count-pos in_session n s.login i k.one (rw k.blocked refl))

  -- Another login moves to a place from which it sets no state, and shared memory stays quiet.
  moved :
      (j : ℕ) (l : Login) (x : SharedState) (m : Option ℕ) (c : ℕ)
      → j ≢ i
      → may_set l ≡ false
      → x.server ≡ stopping
      → ((a : ℕ) → is_busy (x.tasks a) ≡ false)
      → Stuck n
          (record {
            shared = x;
            login = assign s.login j l;
            start_mutex = m;
            schedulers = c;
            adopters = s.adopters;
            starts = s.starts;
            found_down = s.found_down;
          })
          i
  moved j l x m c ne calm up quiet = record {
    one = k.one;
    blocked = ground (arith, k.blocked);
    server = up;
    quiet = quiet;
    calm = λ a. ground (arith, k.calm a);
    none_starts = k.none_starts;
    none_down = k.none_down;
  }

  -- A shared state that steps of other tasks leave.
  shared_by :
      (x : SharedState) (c : ℕ)
      → x.server ≡ stopping
      → ((a : ℕ) → is_busy (x.tasks a) ≡ false)
      → Stuck n (record s { shared = x; schedulers = c }) i
  shared_by x c up quiet = record {
    one = k.one;
    blocked = k.blocked;
    server = up;
    quiet = quiet;
    calm = k.calm;
    none_starts = k.none_starts;
    none_down = k.none_down;
  }

  take-quiet : (j : ℕ) → is_busy ((take_timer s.shared).tasks j) ≡ false
  unfolding take_timer
  take-quiet j = ground (arith, k.quiet j)

  LoginStep-Stuck :
      (j : ℕ) {l : Login} {t : System} → s.login j ≡ l → LoginStep s j l t → Stuck n t i
  unfolding leave take_timer begin_session drop_session
  LoginStep-Stuck j e (leave_stop h) = moved j _ _ _ _ (λ q. cc k.blocked) refl k.server k.quiet
  LoginStep-Stuck j e (check_stop h) = cc k.server
  LoginStep-Stuck j e take = moved j _ _ _ _ (λ q. cc k.blocked) refl k.server take-quiet
  LoginStep-Stuck j e begin = moved j _ _ _ _ (λ q. cc k.blocked) refl k.server k.quiet
  LoginStep-Stuck j e (lock h) = cc (v.excluded i (rw k.blocked refl))
  LoginStep-Stuck j e (resolve h) = cc k.server
  LoginStep-Stuck j e (claim h) = cc k.server
  LoginStep-Stuck j e (pass h) =
      cc (v.excluded i (rw k.blocked refl), v.excluded j (rw e refl), k.blocked)
  LoginStep-Stuck j e start = cc (k.calm j)
  LoginStep-Stuck j e (forward_at_once h) = cc k.server
  LoginStep-Stuck j e (wait h) = cc (k.calm j)
  LoginStep-Stuck j e probed = cc (k.calm j)
  LoginStep-Stuck j e (seen_running h) = cc k.server
  LoginStep-Stuck j e give_up = cc (k.calm j)
  LoginStep-Stuck j e disconnect = moved j _ _ _ _ (λ q. cc k.blocked) refl k.server k.quiet

  schedule-quiet : (j : ℕ) → is_busy ((schedule_idle_shutdown s.shared).tasks j) ≡ false
  unfolding schedule_idle_shutdown
  schedule-quiet j = ground (arith, k.quiet j)

  wake-quiet : (a : ℕ) (j : ℕ) → is_busy ((wake_timer a s.shared).tasks j) ≡ false
  unfolding wake_timer
  wake-quiet a j = ground (arith, k.quiet j, someone)

  wake-server : (a : ℕ) → (wake_timer a s.shared).server ≡ stopping
  unfolding wake_timer
  wake-server a = k.server

  schedule-server : (schedule_idle_shutdown s.shared).server ≡ stopping
  unfolding schedule_idle_shutdown take_timer
  schedule-server = k.server

-- The rest of the steps either do not apply or change nothing that matters.
pub Step-Stuck : {n : ℕ} {s t : System} {i : ℕ} → Step n s t → Inv n s → Stuck n s i → Stuck n t i
Step-Stuck (by_login j lt st) v k = LoginStep-Stuck v k j refl st
Step-Stuck (schedule h) v k = shared_by v k _ _ (schedule-server v k) (schedule-quiet v k)
Step-Stuck (wake a e) v k = shared_by v k _ _ (wake-server v k a) (wake-quiet v k a)
Step-Stuck (mark a e) v k = absurd (ground (arith, k.quiet a))
Step-Stuck (finish a r e) v k = absurd (ground (arith, k.quiet a))
Step-Stuck (started h) v k = absurd (omega (arith, k.none_starts))
Step-Stuck (start_failed h) v k = absurd (omega (arith, k.none_starts))
Step-Stuck (find_down h) v k = cc k.server
Step-Stuck (set_down h) v k = cc k.none_down
Step-Stuck (adopt h) v k = cc k.server
Step-Stuck {s} (look h) v k = record {
  one = k.one;
  blocked = k.blocked;
  server = k.server;
  quiet = k.quiet;
  calm = k.calm;
  none_starts = k.none_starts;
  none_down = k.none_down;
}

pub Reach-Stuck : {n : ℕ} {s t : System} {i : ℕ} → Inv n s → Stuck n s i → Reach n s t → Stuck n t i
Reach-Stuck v k here = k
Reach-Stuck v k (next r st) = Step-Stuck st (Reach-Inv v r) (Reach-Stuck v k r)

-- From a stuck state every run ends in one: the login still waits inside the mutex, and the server
-- state is still Stopping, whatever the other logins, the timers and the synchronisation do.
pub Stuck-forever :
    {n : ℕ} {s t : System} {i : ℕ}
    → Inv n s
    → Stuck n s i
    → Reach n s t
    → (t.login i ≡ locked) × (t.shared.server ≡ stopping)
Stuck-forever v k r = let k' = Reach-Stuck v k r in (k'.blocked, k'.server)
