-- ===== src/System/Starts.antt =====
-- How often a run starts the container, for the block of `start_mutex` in `handle_login` of
-- src/proxy.rs.
use redoxide.Common.{
  ℕ, ◌+◌, ◌^◌, ◌<◌, ◌≤◌, ◌≡◌, ◌≢◌, ◌⊎◌, inl, inr, refl, Bool, Option, Bytes, arith,
}
use redoxide.Common.Family.{assign}
use redoxide.Config.{Config}
use redoxide.Outcome.{ok, err, panic}
use redoxide.VersionCache.{CacheFormat}
use redoxide.State.{
  SharedState, stopped, new, take_timer, schedule_idle_shutdown, begin_session, drop_session,
  wake_timer, mark_stopping, finish_stop,
}
use redoxide.System.{
  Login, claiming, admitted, System, leave, LoginStep, leave_stop, check_stop, take, begin, lock,
  resolve, claim, pass, start, forward_at_once, wait, probed, seen_running, give_up, disconnect,
  Step, by_login, schedule, wake, mark, finish, started, start_failed, find_down, set_down, adopt,
  look, initial, Reach, here, next,
}
use redoxide.System.Invariant.{Inv, initial-Inv, Reach-Inv}

-- A step of a login that spawns `docker.start`.
abbrev pub starts_by : {s : System} {i : ℕ} {l : Login} {t : System} → LoginStep s i l t → ℕ
starts_by start = 1
starts_by st = 0

abbrev pub starts_in : {n : ℕ} {s t : System} → Step n s t → ℕ
starts_in (by_login i lt st) = starts_by st
starts_in st = 0

-- It publishes that the container is down: a start failed, a stop went well, or the synchronisation
-- found it so.
abbrev pub downs_in : {n : ℕ} {s t : System} → Step n s t → ℕ
downs_in (finish i (ok u) e) = 1
downs_in (start_failed h) = 1
downs_in (set_down h) = 1
downs_in st = 0

-- How often the container is started in a run.
unfoldable pub count_starts : {n : ℕ} {s t : System} → Reach n s t → ℕ
count_starts here = 0
count_starts (next r st) = count_starts r + starts_in st

unfoldable pub count_downs : {n : ℕ} {s t : System} → Reach n s t → ℕ
count_downs here = 0
count_downs (next r st) = count_downs r + downs_in st

-- `a` starts and `b` publications: a login that may start at once, or one that is about to, has not
-- been overtaken.
record Paced (a b : ℕ) (s : System) : Type 0 where
  bound : a ≤ b + 1
  down : s.shared.server ≡ stopped → a ≤ b
  due : (j : ℕ) → s.login j ≡ claiming → a ≤ b

module _ {n : ℕ} {s : System} (v : Inv n s) (i : ℕ) where
  -- The login that starts the container leaves no other that is about to.
  start-due :
      {A : Type 0} (j : ℕ) → s.login i ≡ claiming → assign s.login i admitted j ≡ claiming → A
  start-due j e h = absurd (ground (arith, v.excluded i, v.excluded j))

  -- Login `i` moves to a place that is not in front of a start.
  moved :
      (a b : ℕ) (l : Login) (x : SharedState) (m : Option ℕ) (c : ℕ)
      → l ≢ claiming
      → (x.server ≡ stopped → s.shared.server ≡ stopped)
      → Paced a b s
      → Paced
          (a + 0)
          (b + 0)
          (record s { shared = x; login = assign s.login i l; start_mutex = m; schedulers = c })
  moved a b l x m c ne same p = record {
    bound = omega (arith, p.bound);
    down = λ q. omega (arith, p.down (same q));
    due = λ j q. ground (arith, p.due j);
  }

  LoginStep-Paced :
      {l : Login} {t : System} (a b : ℕ)
      → s.login i ≡ l
      → (st : LoginStep s i l t) → Paced a b s
      → Paced (a + starts_by st) (b + 0) t
  unfolding leave begin_session drop_session take_timer
  LoginStep-Paced a b e start p = record {
    bound = omega (arith, p.due i e);
    down = λ h. cc;
    due = λ j h. start-due j e h;
  }
  LoginStep-Paced a b e (claim h) p = record {
    bound = omega (arith, p.bound);
    down = λ q. omega (arith, p.down h);
    due = λ j q. omega (arith, p.down h);
  }
  LoginStep-Paced a b e probed p = moved a b _ _ _ _ (λ q. cc) (λ q. cc) p
  LoginStep-Paced a b e (leave_stop h) p = moved a b _ _ _ _ (λ q. cc) (λ q. q) p
  LoginStep-Paced a b e (check_stop h) p = moved a b _ _ _ _ (λ q. cc) (λ q. q) p
  LoginStep-Paced a b e take p = moved a b _ _ _ _ (λ q. cc) (λ q. q) p
  LoginStep-Paced a b e begin p = moved a b _ _ _ _ (λ q. cc) (λ q. q) p
  LoginStep-Paced a b e (lock h) p = moved a b _ _ _ _ (λ q. cc) (λ q. q) p
  LoginStep-Paced a b e (resolve h) p = moved a b _ _ _ _ (λ q. cc) (λ q. q) p
  LoginStep-Paced a b e (pass h) p = moved a b _ _ _ _ (λ q. cc) (λ q. q) p
  LoginStep-Paced a b e (forward_at_once h) p = moved a b _ _ _ _ (λ q. cc) (λ q. q) p
  LoginStep-Paced a b e (wait h) p = moved a b _ _ _ _ (λ q. cc) (λ q. q) p
  LoginStep-Paced a b e (seen_running h) p = moved a b _ _ _ _ (λ q. cc) (λ q. q) p
  LoginStep-Paced a b e give_up p = moved a b _ _ _ _ (λ q. cc) (λ q. q) p
  LoginStep-Paced a b e disconnect p = moved a b _ _ _ _ (λ q. cc) (λ q. q) p

-- A step of another task that counts `d` publications, one at least if it makes the state Stopped.
others :
    {s : System} (a b d : ℕ) (x : SharedState) (schedulers adopters starts : ℕ) (down : Bool)
    → (x.server ≡ stopped → (s.shared.server ≡ stopped) ⊎ (0 < d))
    → Paced a b s
    → Paced (a + 0) (b + d) (record {
      shared = x;
      login = s.login;
      start_mutex = s.start_mutex;
      schedulers = schedulers;
      adopters = adopters;
      starts = starts;
      found_down = down;
    })
others a b d x schedulers adopters starts down why p = record {
  bound = omega (arith, p.bound);
  down = λ q. ground (arith, p.bound, p.down, why q);
  due = λ j q. omega (arith, p.due j q);
}

Step-Paced :
    {n : ℕ} {s t : System} (a b : ℕ) (st : Step n s t)
    → Inv n s
    → Paced a b s
    → Paced (a + starts_in st) (b + downs_in st) t
unfolding wake_timer mark_stopping finish_stop schedule_idle_shutdown take_timer
Step-Paced a b (by_login i lt st) v p = LoginStep-Paced v i a b refl st p
Step-Paced a b (schedule h) v p = others a b 0 _ _ _ _ _ (λ q. inl q) p
Step-Paced a b (wake i e) v p = others a b 0 _ _ _ _ _ (λ q. inl q) p
Step-Paced a b (mark i e) v p = others a b 0 _ _ _ _ _ (λ q. cc) p
Step-Paced a b (finish i (ok u) e) v p = others a b 1 _ _ _ _ _ (λ q. inr (omega arith)) p
Step-Paced a b (finish i (err x) e) v p = others a b 0 _ _ _ _ _ (λ q. cc) p
Step-Paced a b (finish i panic e) v p = others a b 0 _ _ _ _ _ (λ q. inl q) p
Step-Paced a b (started h) v p = others a b 0 _ _ _ _ _ (λ q. inl q) p
Step-Paced a b (start_failed h) v p = others a b 1 _ _ _ _ _ (λ q. inr (omega arith)) p
Step-Paced a b (find_down h) v p = others a b 0 _ _ _ _ _ (λ q. inl q) p
Step-Paced a b (set_down h) v p = others a b 1 _ _ _ _ _ (λ q. inr (omega arith)) p
Step-Paced a b (adopt h) v p = others a b 0 _ _ _ _ _ (λ q. cc) p
Step-Paced a b (look h) v p = others a b 0 _ _ _ _ _ (λ q. inl q) p

Reach-Paced :
    {n : ℕ} {s t : System} (r : Reach n s t) → Inv n s → Paced (count_starts r) (count_downs r) t
unfolding count_starts count_downs
Reach-Paced here v = record {
  bound = omega arith;
  down = λ q. omega arith;
  due = λ j q. omega arith;
}
Reach-Paced (next r st) v =
    Step-Paced (count_starts r) (count_downs r) st (Reach-Inv v r) (Reach-Paced r v)

-- From every state that is reached from the start, with fewer than 2 ^ 64 logins, a run starts the
-- container at most once more than it publishes that the container is down (a start that failed, a
-- stop that went well, or what the synchronisation found). Logins that come together do not both
-- start it.
pub starts_once :
    (format : CacheFormat) (config : Config) (file : Option Bytes) (n : ℕ) (s t : System)
    → n < 2 ^ 64
    → Reach n (initial (new format config file)) s
    → (r : Reach n s t) → count_starts r ≤ count_downs r + 1
starts_once format config file n s t few q r =
    (Reach-Paced r (Reach-Inv (initial-Inv format config file n few) q)).bound
