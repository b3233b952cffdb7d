-- ===== src/System/Undisturbed.antt =====
-- Runs in which no idle timer of src/state.rs is aborted behind its look at the player count.
use redoxide.Common.{ℕ, ◌≡◌, Bool, false, arith, ◌||◌, Option, Bytes}
use redoxide.Config.{Config}
use redoxide.Outcome.{ok, err, panic}
use redoxide.VersionCache.{CacheFormat}
use redoxide.State.{stopped, starting, running, new, SharedState, begin_session, drop_session}
use redoxide.State.Cuts.{
  cuts_timer, Honest, take_timer-Honest, schedule_idle_shutdown-Honest, wake_timer-Honest,
  mark_stopping-Honest, finish_stop-Honest, set_state-Honest,
}
use redoxide.System.{
  Login, System, leave, LoginStep, leave_stop, check_stop, take, begin, lock, resolve, claim, pass,
  start, forward_at_once, wait, probed, seen_running, give_up, disconnect, Step, by_login, schedule,
  wake, mark, finish, started, start_failed, find_down, set_down, adopt, look, initial, Reach, here,
  next,
}
use redoxide.System.Attended.{fails_stop, stop_failed}
use redoxide.System.Invariant.{Inv, Reach-Inv}

-- A login that takes the timer aborts it behind that look.
abbrev pub cuts_by : {s : System} {i : ℕ} {l : Login} {t : System} → LoginStep s i l t → Bool
cuts_by {s} take = cuts_timer s.shared
cuts_by st = false

-- So does a task that arms another timer.
abbrev pub cuts : {n : ℕ} {s t : System} → Step n s t → Bool
cuts (by_login i lt st) = cuts_by st
cuts {s} (schedule h) = cuts_timer s.shared
cuts st = false

-- Some step of a run does.
unfoldable pub timer_cut : {n : ℕ} {s t : System} → Reach n s t → Bool
timer_cut here = false
timer_cut (next r st) = timer_cut r || cuts st

-- The count of the players is no part of it.
leave-Honest : (s : System) (i : ℕ) → Honest s.shared → Honest (leave s i).shared
unfolding leave drop_session
leave-Honest s i h = record { stopper = h.stopper; whole = h.whole }

begin_session-Honest : (s : SharedState) → Honest s → Honest (begin_session s)
unfolding begin_session
begin_session-Honest s h = record { stopper = h.stopper; whole = h.whole }

LoginStep-Honest :
    {s : System} {i : ℕ} {l : Login} {t : System}
    → Honest s.shared
    → (st : LoginStep s i l t) → cuts_by st ≡ false
    → Honest t.shared
LoginStep-Honest h (leave_stop x) c = h
LoginStep-Honest h (check_stop x) c = h
LoginStep-Honest {s} h take c = take_timer-Honest s.shared c h
LoginStep-Honest {s} h begin c = begin_session-Honest s.shared h
LoginStep-Honest h (lock x) c = h
LoginStep-Honest h (resolve x) c = h
LoginStep-Honest h (claim x) c = h
LoginStep-Honest h (pass x) c = h
LoginStep-Honest {s} h start c = set_state-Honest s.shared h starting (λ e. cc)
LoginStep-Honest h (forward_at_once x) c = h
LoginStep-Honest h (wait x) c = h
LoginStep-Honest {s} h probed c = set_state-Honest s.shared h running (λ e. cc)
LoginStep-Honest h (seen_running x) c = h
LoginStep-Honest {s} {i} h give_up c = leave-Honest s i h
LoginStep-Honest {s} {i} h disconnect c = leave-Honest s i h

Step-Honest :
    {n : ℕ} {s t : System}
    → Inv n s
    → Honest s.shared
    → (st : Step n s t) → fails_stop st ≡ false
    → cuts st ≡ false
    → Honest t.shared
Step-Honest v h (by_login i lt st) f c = LoginStep-Honest h st c
Step-Honest {s} v h (schedule x) f c = schedule_idle_shutdown-Honest s.shared c h v.timer
Step-Honest {s} v h (wake i e) f c = wake_timer-Honest s.shared h i e
Step-Honest {s} v h (mark i e) f c = mark_stopping-Honest s.shared h i e
Step-Honest {s} v h (finish i (ok u) e) f c = finish_stop-Honest s.shared h i u
Step-Honest v h (finish i (err x) e) f c = cc
Step-Honest v h (finish i panic e) f c = cc
Step-Honest v h (started x) f c = h
Step-Honest {s} v h (start_failed x) f c = set_state-Honest s.shared h stopped (λ e. cc)
Step-Honest v h (find_down x) f c = h
Step-Honest {s} v h (set_down x) f c = set_state-Honest s.shared h stopped (λ e. cc)
Step-Honest {s} v h (adopt x) f c = set_state-Honest s.shared h running (λ e. cc)
Step-Honest v h (look x) f c = h

pub Reach-Honest :
    {n : ℕ} {s t : System}
    → Inv n s
    → Honest s.shared
    → (r : Reach n s t) → stop_failed r ≡ false
    → timer_cut r ≡ false
    → Honest t.shared
unfolding stop_failed timer_cut
Reach-Honest v h here f c = h
Reach-Honest v h (next r st) f c =
    Step-Honest (Reach-Inv v r) (Reach-Honest v h r (ground (arith, f)) (ground (arith, c))) st
      (ground (arith, f)) (ground (arith, c))

pub initial-Honest :
    (format : CacheFormat) (config : Config) (file : Option Bytes)
    → Honest (initial (new format config file)).shared
unfolding initial new
initial-Honest format config file = record { stopper = λ e. cc; whole = λ j e. cc }
