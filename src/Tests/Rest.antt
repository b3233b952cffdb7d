-- ===== src/Tests/Rest.antt =====
-- Examples for the tasks of the system when nothing new comes.
use redoxide.Common.{ℕ, ◌≤◌, ◌≡◌, inl, refl, true, false, none, arith, some}
use redoxide.Common.Family.{total, assign}
use redoxide.Outcome.{ok}
use redoxide.State.{
  new, stopped, take_timer, schedule_idle_shutdown, wake_timer, mark_stopping, finish_stop,
  begin_session,
}
use redoxide.State.Work.{work}
use redoxide.System.{
  System, absent, Reach, here, next, wake, mark, finish, initial, move, cancelled, counted, locked,
  by_login, leave_stop, begin, lock,
}
use redoxide.System.Attended.{stop_failed}
use redoxide.State.Cuts.{cuts_timer}
use redoxide.System.Undisturbed.{timer_cut}
use redoxide.System.Quiet.{all_quiet, steps, ahead, quiet_run_ends}
use redoxide.System.Quiet.Comes.{IsIdle, IsIdle-AtRest, comes_to_stop}
use redoxide.System.Quiet.Rest.{rest_stopped}
use redoxide.System.Progress.{Held, login_goes_on}
use redoxide.Tests.Fixture.{demo_config, demo_format}
use redoxide.Tests.Idle.{few, stops, stops_run}
use redoxide.Tests.Shared.{begun, after_adopt, adopted_run}

-- The stop goes well.
abbrev ended : System
ended = record stops { shared = finish_stop 0 (ok tt) stops.shared }

-- The three steps of the timer.
unfoldable timer_run : Reach 3 after_adopt ended
unfolding new initial schedule_idle_shutdown take_timer wake_timer mark_stopping
timer_run = next (next (next here (wake 0 refl)) (mark 0 (inl refl))) (finish 0 (ok tt) refl)

quiet_run_ends_example : steps timer_run ≤ ahead 3 after_adopt
unfolding timer_run all_quiet
quiet_run_ends_example =
    quiet_run_ends demo_format demo_config none 3 after_adopt ended few adopted_run timer_run refl

three_steps : (steps timer_run ≡ 3) × (ahead 3 after_adopt ≡ 3)
unfolding timer_run steps ahead work total new initial schedule_idle_shutdown take_timer
three_steps = (refl, refl)

unfoldable ended_run : Reach 3 begun ended
unfolding new initial schedule_idle_shutdown take_timer wake_timer mark_stopping
ended_run = next stops_run (finish 0 (ok tt) refl)

ended_well : stop_failed ended_run ≡ false
unfolding ended_run stop_failed stops_run adopted_run
ended_well = refl

ended-IsIdle : IsIdle 3 ended
unfolding new initial schedule_idle_shutdown take_timer wake_timer mark_stopping finish_stop
ended-IsIdle = record {
  logins = λ i lt. inl refl;
  timers = λ j. ground arith;
  schedulers = refl;
  adopters = refl;
  starts = refl;
  down = refl;
}

ended_whole : timer_cut ended_run ≡ false
unfolding ended_run timer_cut cuts_timer stops_run adopted_run new initial
ended_whole = refl

rest_stopped_example : (ended.shared.server ≡ stopped) × ((i : ℕ) → ended.login i ≡ absent)
rest_stopped_example =
    rest_stopped demo_format demo_config none 3 ended few ended_run ended_well ended_whole
      (IsIdle-AtRest ended-IsIdle)

adopted_whole : timer_cut {n = 3} adopted_run ≡ false
unfolding timer_cut cuts_timer adopted_run new initial
adopted_whole = refl

comes_to_stop_example :
    (t : System) × (q : Reach 3 after_adopt t) × (all_quiet q ≡ true)
    × (t.shared.server ≡ stopped)
    × ((i : ℕ) → t.login i ≡ absent)
unfolding stop_failed adopted_run
comes_to_stop_example =
    comes_to_stop demo_format demo_config none 3 after_adopt few adopted_run refl adopted_whole

-- Login 1 comes while the container stops, and waits inside the mutex.
abbrev came : System
came = move stops 1 cancelled

abbrev counting : System
counting = record came { shared = begin_session came.shared; login = assign came.login 1 counted }

abbrev holding : System
holding = record counting { start_mutex = some 1; login = assign counting.login 1 locked }

unfoldable holding_run : Reach 3 begun holding
unfolding new initial schedule_idle_shutdown take_timer wake_timer mark_stopping begin_session
holding_run =
    next
      (next (next stops_run (by_login 1 (omega arith) (leave_stop refl)))
        (by_login 1 (omega arith) begin))
      (by_login 1 (omega arith) (lock refl))

login_goes_on_example : Held holding_run 1
login_goes_on_example =
    login_goes_on demo_format demo_config none 3 holding 1 few holding_run (omega arith) refl
