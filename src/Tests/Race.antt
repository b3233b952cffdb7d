-- ===== src/Tests/Race.antt =====
-- The run in which a login and the idle timer race, and a step behind it.
use redoxide.Common.{◌≡◌, refl, some, none, arith, inr}
use redoxide.Common.Family.{assign}
use redoxide.State.{
  new, stopping, schedule_idle_shutdown, take_timer, wake_timer, begin_session, mark_stopping,
}
use redoxide.System.{
  System, unchecked, cancelled, counted, locked, move, initial, Reach, here, next, by_login, wake,
  mark, check_stop, take, begin, lock, leave_stop,
}
use redoxide.System.Invariant.{Inv, initial-Inv, Reach-Inv}
use redoxide.System.Stuck.{Stuck, Stuck-forever}
use redoxide.Tests.Fixture.{demo_config, demo_format}
use redoxide.Tests.Shared.{begun, after_adopt, adopted_run}

-- The timer wakes and finds nobody.
abbrev woken : System
woken = record after_adopt { shared = wake_timer 0 after_adopt.shared }

-- Login 0 takes the timer, begins its session, and takes the mutex.
abbrev looked : System
looked = move woken 0 unchecked

abbrev took : System
took = record looked { shared = take_timer looked.shared; login = assign looked.login 0 cancelled }

abbrev counting : System
counting = record took { shared = begin_session took.shared; login = assign took.login 0 counted }

abbrev holding : System
holding = record counting { start_mutex = some 0; login = assign counting.login 0 locked }

-- The timer goes on, and ends at its next await.
abbrev raced : System
raced = record holding { shared = mark_stopping 0 holding.shared }

race_run : Reach 2 begun raced
unfolding new initial schedule_idle_shutdown take_timer wake_timer begin_session mark_stopping
race_run =
    next
      (next
        (next
          (next (next (next adopted_run (wake 0 refl)) (by_login 0 (omega arith) (check_stop refl)))
            (by_login 0 (omega arith) take))
          (by_login 0 (omega arith) begin))
        (by_login 0 (omega arith) (lock refl)))
      (mark 0 (inr refl))

raced-Stuck : Stuck 2 raced 0
unfolding new initial schedule_idle_shutdown take_timer wake_timer begin_session mark_stopping
raced-Stuck = record {
  one = omega arith;
  blocked = refl;
  server = refl;
  quiet = λ j. ground arith;
  calm = λ j. ground arith;
  none_starts = refl;
  none_down = refl;
}

raced-Inv : Inv 2 raced
raced-Inv = Reach-Inv (initial-Inv demo_format demo_config none 2 (omega arith)) race_run

-- Another login comes, and sees the stop in flight.
abbrev met : System
met = move raced 1 cancelled

met_run : Reach 2 raced met
unfolding new initial mark_stopping
met_run = next here (by_login 1 (omega arith) (leave_stop refl))

Stuck-forever_example : (met.login 0 ≡ locked) × (met.shared.server ≡ stopping)
Stuck-forever_example = Stuck-forever raced-Inv raced-Stuck met_run
