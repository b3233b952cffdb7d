-- ===== src/State/Work.antt =====
-- How much the idle timers of src/state.rs have left to do.
use redoxide.Common.{ℕ, ◌+◌, ◌<◌, ◌≤◌, ◌≡◌, ◌⊎◌, Option, none, some, arith}
use redoxide.Common.Family.{
  assign, total, total-suc, total-assign, total-assign_above, total-assign_le,
}
use redoxide.Outcome.{Result}
use redoxide.State.{
  Timer, sleeping, awake, doomed, in_stop, over, aborted, SharedState, take_timer, abort_timer,
  schedule_idle_shutdown, wake_timer, mark_stopping, finish_stop,
}
use redoxide.State.Timers.{OneTimer}

-- The steps that a task has left.
abbrev pub left_of : Timer → ℕ
left_of sleeping = 3
left_of awake = 2
left_of doomed = 2
left_of in_stop = 1
left_of over = 0

unfoldable pub work : SharedState → ℕ
work s = total left_of s.spawned s.tasks

aborted-le : (x : Timer) → left_of (aborted x) ≤ left_of x
aborted-le x = ground arith

abort_timer-le :
    (o : Option ℕ) (n : ℕ) (f : ℕ → Timer) → total left_of n (abort_timer o f) ≤ total left_of n f
unfolding abort_timer
abort_timer-le none n f = omega arith
abort_timer-le (some i) n f = total-assign_le left_of n f i (aborted (f i)) (aborted-le (f i))

module _ (s : SharedState) where
  pub take_timer-work : work (take_timer s) ≤ work s
  unfolding work take_timer
  take_timer-work = abort_timer-le s.idle_timer s.spawned s.tasks

  pub schedule_idle_shutdown-work : work (schedule_idle_shutdown s) ≤ work s + 3
  unfolding work schedule_idle_shutdown take_timer
  schedule_idle_shutdown-work =
      let f = abort_timer s.idle_timer s.tasks in
      ground (
        arith,
        abort_timer-le s.idle_timer s.spawned s.tasks,
        total-suc left_of s.spawned (assign f s.spawned sleeping),
        total-assign_above left_of s.spawned f s.spawned sleeping (omega arith),
      )

  module _ (v : OneTimer s) (i : ℕ) where
    -- A task with a step left was spawned.
    spawned_one : 0 < left_of (s.tasks i) → i < s.spawned
    spawned_one h = ground (arith, v.later i, h)

    step-work :
        (x : Timer)
        → left_of x < left_of (s.tasks i)
        → total left_of s.spawned (assign s.tasks i x) < work s
    unfolding work
    step-work x h =
        omega
          (arith, h, total-assign left_of s.spawned s.tasks i x (spawned_one (omega (arith, h))))

    pub wake_timer-work : s.tasks i ≡ sleeping → work (wake_timer i s) < work s
    unfolding wake_timer work
    wake_timer-work e = step-work _ (ground arith)

    pub mark_stopping-work :
        (s.tasks i ≡ awake) ⊎ (s.tasks i ≡ doomed) → work (mark_stopping i s) < work s
    unfolding mark_stopping work
    mark_stopping-work e = step-work _ (ground arith)

    pub finish_stop-work :
        (r : Result (Unit {0})) → s.tasks i ≡ in_stop → work (finish_stop i r s) < work s
    unfolding finish_stop work
    finish_stop-work r e = step-work _ (ground arith)
