-- ===== src/System/Atomic.antt =====
-- Methods of src/state.rs whose accesses are separate steps of the system, run with no other task
-- in between.
use redoxide.Common.{ℕ, ◌<◌, ◌≡◌, refl, arith, Bool-cases, inl, inr, ◌==◌}
use redoxide.Common.Family.{assign, assign_same}
use redoxide.State.{stopped, is_stopping, adopt_running, cancel_idle_shutdown}
use redoxide.System.{
  System, Login, absent, unchecked, cancelled, LoginStep, leave_stop, check_stop, take, Step,
  by_login, adopt, look, schedule, Reach, here, next,
}

-- From a state that is Stopped, the steps of an adoption lead to what `adopt_running` does, and
-- leave the logins, the mutex and the starts alone.
pub adopt_running-Reach :
    (n : ℕ) (s : System)
    → s.shared.server ≡ stopped
    → (t : System) × Reach n s t
      × (t.shared ≡ adopt_running s.shared)
      × (t.login ≡ s.login)
      × (t.start_mutex ≡ s.start_mutex)
      × (t.schedulers ≡ s.schedulers)
unfolding adopt_running
adopt_running-Reach n s down = elim (Bool-cases (s.shared.player_count == 0)) [
  | inl empty ↦ (
    _,
    next (next (next here (adopt down)) (look (omega arith))) (schedule (rw empty (omega arith))),
    rw (down, empty) refl,
    refl,
    refl,
    rw empty (omega arith),
  )
  | inr some_here ↦ (
    _,
    next (next here (adopt down)) (look (omega arith)),
    rw (down, some_here) refl,
    refl,
    refl,
    rw some_here refl,
  )
]

pub at_login :
    {n : ℕ} {s t : System} {i : ℕ} {l : Login}
    → i < n
    → s.login i ≡ l
    → LoginStep s i l t
    → Step n s t
at_login {i} lt e st = by_login i lt (rw e st)

-- The steps with which login `i` cancels the idle shutdown lead to what `cancel_idle_shutdown`
-- does, and move this login alone.
pub cancel_idle_shutdown-Reach :
    (n : ℕ) (s : System) (i : ℕ)
    → i < n
    → s.login i ≡ absent
    → (t : System) × Reach n s t
      × (t.shared ≡ cancel_idle_shutdown s.shared)
      × (t.login i ≡ cancelled)
      × (t.start_mutex ≡ s.start_mutex)
unfolding cancel_idle_shutdown
cancel_idle_shutdown-Reach n s i lt e = elim (Bool-cases (is_stopping s.shared.server)) [
  | inl busy ↦ (
    _,
    next here (at_login lt e (leave_stop busy)),
    rw busy refl,
    assign_same s.login i cancelled,
    refl,
  )
  | inr free ↦ (
    _,
    next (next here (at_login lt e (check_stop free)))
        (at_login lt (assign_same s.login i unchecked) take),
    rw free refl,
    assign_same (assign s.login i unchecked) i cancelled,
    refl,
  )
]
