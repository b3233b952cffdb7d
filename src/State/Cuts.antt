-- ===== src/State/Cuts.antt =====
-- Aborts of an idle timer that has woken, in src/state.rs.
use redoxide.Common.{
  ℕ, ◌≡◌, ◌≢◌, ◌⊎◌, inl, inr, ◌∙◌, refl, Bool, true, false, Option, none, some, arith,
}
use redoxide.Outcome.{ok}
use redoxide.State.Timers.{OneTimer, take_timer-OneTimer}
use redoxide.State.{
  stopping, Timer, sleeping, awake, doomed, in_stop, over, SharedState, take_timer, abort_timer,
  schedule_idle_shutdown, ServerState, set_state, wake_timer, mark_stopping, finish_stop,
}

-- A task that has found nobody connected and is not over.
abbrev pub is_busy : Timer → Bool
is_busy sleeping = false
is_busy over = false
is_busy _ = true

abbrev pub cut_by : Option ℕ → (ℕ → Timer) → Bool
cut_by none f = false
cut_by (some i) f = is_busy (f i)

-- The timer that the state names is such a task: to take it is to abort it there.
unfoldable pub cuts_timer : SharedState → Bool
cuts_timer s = cut_by s.idle_timer s.tasks

-- While the state is Stopping a task is in `docker.stop`, and none that was aborted goes on.
pub record Honest (s : SharedState) : Type 0 where
  pub stopper : s.server ≡ stopping → (j : ℕ) × (s.tasks j ≡ in_stop)
  pub whole : (j : ℕ) → s.tasks j ≢ doomed

-- Without a cut, busy tasks are left alone.
abort_timer-busy :
    (o : Option ℕ) (f : ℕ → Timer) (j : ℕ)
    → cut_by o f ≡ false
    → is_busy (f j) ≡ true
    → abort_timer o f j ≡ f j
unfolding abort_timer
abort_timer-busy none f j c h = refl
abort_timer-busy (some i) f j c h = ground arith

abort_timer-doomed :
    (o : Option ℕ) (f : ℕ → Timer) (j : ℕ)
    → cut_by o f ≡ false
    → f j ≢ doomed
    → abort_timer o f j ≢ doomed
unfolding abort_timer
abort_timer-doomed none f j c h = h
abort_timer-doomed (some i) f j c h = λ e. ground arith

module _ (s : SharedState) (c : cuts_timer s ≡ false) (v : Honest s) where
  pub take_timer-Honest : Honest (take_timer s)
  unfolding take_timer cuts_timer
  take_timer-Honest = record {
    stopper = λ e.
        let (j, h) = v.stopper e in (j, abort_timer-busy s.idle_timer s.tasks j c (rw h refl) ∙ h);
    whole = λ j. abort_timer-doomed s.idle_timer s.tasks j c (v.whole j);
  }

  spawned_kept :
      OneTimer s
      → (j : ℕ) → (take_timer s).tasks j ≡ in_stop
      → (schedule_idle_shutdown s).tasks j ≡ in_stop
  unfolding take_timer schedule_idle_shutdown
  spawned_kept w j h = let later = (take_timer-OneTimer s w).later j in ground (arith, h, later)

  pub schedule_idle_shutdown-Honest : OneTimer s → Honest (schedule_idle_shutdown s)
  unfolding take_timer schedule_idle_shutdown
  schedule_idle_shutdown-Honest w = record {
    stopper = λ e. let (j, h) = take_timer-Honest.stopper e in (j, spawned_kept w j h);
    whole = λ j e. ground (arith, take_timer-Honest.whole j);
  }

module _ (s : SharedState) (v : Honest s) (i : ℕ) where
  pub wake_timer-Honest : s.tasks i ≡ sleeping → Honest (wake_timer i s)
  unfolding wake_timer
  wake_timer-Honest e = record {
    stopper = λ q. let (j, h) = v.stopper q in (j, ground arith);
    whole = λ j q. ground (arith, v.whole j);
  }

  pub mark_stopping-Honest : (s.tasks i ≡ awake) ⊎ (s.tasks i ≡ doomed) → Honest (mark_stopping i s)
  unfolding mark_stopping
  mark_stopping-Honest (inl e) = record {
    stopper = λ q. (i, ground arith);
    whole = λ j q. ground (arith, v.whole j);
  }
  mark_stopping-Honest (inr e) = absurd (v.whole i e)

  pub finish_stop-Honest : (u : Unit {0}) → Honest (finish_stop i (ok u) s)
  unfolding finish_stop
  finish_stop-Honest u = record { stopper = λ q. cc; whole = λ j q. ground (arith, v.whole j) }

-- A state that is not Stopping asks for no stopper.
pub set_state-Honest :
    (s : SharedState) → Honest s → (x : ServerState) → x ≢ stopping → Honest (set_state x s)
set_state-Honest s v x ne = record { stopper = λ q. absurd (ne q); whole = v.whole }
