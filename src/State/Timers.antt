-- ===== src/State/Timers.antt =====
-- At most one idle timer is live, whatever operations are made in whatever order.
use redoxide.Common.{ℕ, ◌⊎◌, ◌≤◌, ◌≡◌, Bool, true, false, some, arith}
use redoxide.Outcome.{Result}
use redoxide.State.{
  ServerState, set_state, Timer, sleeping, awake, doomed, in_stop, over, SharedState, take_timer,
  abort_timer, cancel_idle_shutdown, schedule_idle_shutdown, begin_session, drop_session,
  wake_timer, mark_stopping, finish_stop,
}

-- A task that may still stop the container by itself.
abbrev pub is_live : Timer → Bool
is_live sleeping = true
is_live awake = true
is_live in_stop = true
is_live _ = false

-- Only the task that `idle_timer` names is live, and only spawned tasks are anything but over.
pub record OneTimer (s : SharedState) : Type 0 where
  pub named : (j : ℕ) → is_live (s.tasks j) ≡ true → s.idle_timer ≡ some j
  pub later : (j : ℕ) → s.spawned ≤ j → s.tasks j ≡ over

module _ (s : SharedState) (v : OneTimer s) where
  take_timer-dead : (j : ℕ) → is_live ((take_timer s).tasks j) ≡ false
  unfolding take_timer abort_timer
  take_timer-dead j = ground (arith, v.named j)

  take_timer-later : (j : ℕ) → s.spawned ≤ j → (take_timer s).tasks j ≡ over
  unfolding take_timer abort_timer
  take_timer-later j h = ground (arith, v.later j)

  pub take_timer-OneTimer : OneTimer (take_timer s)
  unfolding take_timer
  take_timer-OneTimer = record {
    named = λ j h. ground (arith, take_timer-dead j);
    later = λ j h. take_timer-later j h;
  }

  pub cancel_idle_shutdown-OneTimer : OneTimer (cancel_idle_shutdown s)
  unfolding cancel_idle_shutdown
  cancel_idle_shutdown-OneTimer = record {
    named = λ j h. ground (arith, v.named j, take_timer-dead j);
    later = λ j h. ground (arith, v.later j, take_timer-later j);
  }

  pub schedule_idle_shutdown-OneTimer : OneTimer (schedule_idle_shutdown s)
  unfolding schedule_idle_shutdown
  schedule_idle_shutdown-OneTimer = record {
    named = λ j h. ground (arith, take_timer-dead j);
    later = λ j h. ground (arith, take_timer-later j);
  }

  pub set_state-OneTimer : (x : ServerState) → OneTimer (set_state x s)
  set_state-OneTimer x = record { named = v.named; later = v.later }

  pub wake_timer-OneTimer : (i : ℕ) → s.tasks i ≡ sleeping → OneTimer (wake_timer i s)
  unfolding wake_timer
  wake_timer-OneTimer i e = record {
    named = λ j h. ground (arith, v.named j);
    later = λ j h. ground (arith, v.later j);
  }

  pub mark_stopping-OneTimer :
      (i : ℕ) → (s.tasks i ≡ awake) ⊎ (s.tasks i ≡ doomed) → OneTimer (mark_stopping i s)
  unfolding mark_stopping
  mark_stopping-OneTimer i e = record {
    named = λ j h. ground (arith, v.named j);
    later = λ j h. ground (arith, v.later j);
  }

  pub finish_stop-OneTimer : (i : ℕ) (r : Result (Unit {0})) → OneTimer (finish_stop i r s)
  unfolding finish_stop
  finish_stop-OneTimer i r = record {
    named = λ j h. ground (arith, v.named j);
    later = λ j h. ground (arith, v.later j);
  }

  pub begin_session-OneTimer : OneTimer (begin_session s)
  unfolding begin_session
  begin_session-OneTimer = record { named = v.named; later = v.later }

  pub drop_session-OneTimer : OneTimer (drop_session s).0
  unfolding drop_session
  drop_session-OneTimer = record { named = v.named; later = v.later }
