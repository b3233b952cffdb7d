-- ===== src/Tests/Shared.antt =====
-- Examples for the tasks over the shared state: a short run from the start.
use redoxide.Common.{ℕ, ◌+◌, ◌-◌, ◌<◌, ◌^◌, ◌≡◌, refl, true, none, some, arith, ◌==◌, if◌then◌else◌}
use redoxide.Common.Family.{count, assign}
use redoxide.State.{new, running, set_state, take_timer, begin_session, schedule_idle_shutdown}
use redoxide.State.Timers.{is_live}
use redoxide.System.{
  System, locked, in_session, Reach, here, next, by_login, adopt, look, schedule, check_stop, take,
  begin, lock, initial, move, unchecked, cancelled, counted,
}
use redoxide.System.Invariant.{players_counted, start_excluded, one_timer}
use redoxide.System.Stuck.{Stuck}
use redoxide.Tests.Fixture.{demo_config, demo_format}

abbrev pub begun : System
begun = initial (new demo_format demo_config none)

-- Three logins; one is about to be counted.
few : 3 < 2 ^ 64
few = omega arith

-- The container is adopted, and gets an idle timer.
abbrev published : System
published = record begun { shared = set_state running begun.shared; adopters = begun.adopters + 1 }

abbrev checked : System
checked = record published {
  adopters = published.adopters - 1;
  schedulers =
      if published.shared.player_count == 0 then published.schedulers + 1 else published.schedulers;
}

abbrev pub after_adopt : System
after_adopt = record checked {
  shared = schedule_idle_shutdown checked.shared;
  schedulers = checked.schedulers - 1;
}

unfoldable pub adopted_run : {n : ℕ} → Reach n begun after_adopt
unfolding new initial
adopted_run = next (next (next here (adopt refl)) (look (omega arith))) (schedule (omega arith))

-- Login 1 looks at the state, takes the timer, begins its session, and takes the mutex.
abbrev looked : System
looked = move begun 1 unchecked

abbrev took : System
took = record looked { shared = take_timer looked.shared; login = assign looked.login 1 cancelled }

abbrev counting : System
counting = record took { shared = begin_session took.shared; login = assign took.login 1 counted }

abbrev holding : System
holding = record counting { start_mutex = some 1; login = assign counting.login 1 locked }

holding_run : Reach 3 begun holding
unfolding new initial
holding_run =
    next
      (next
        (next (next here (by_login 1 (omega arith) (check_stop refl)))
          (by_login 1 (omega arith) take))
        (by_login 1 (omega arith) begin))
      (by_login 1 (omega arith) (lock refl))

players_counted_example : holding.shared.player_count ≡ count in_session 3 holding.login
players_counted_example = players_counted demo_format demo_config none few holding_run

-- One session.
one_player : holding.shared.player_count ≡ 1
unfolding new initial take_timer begin_session
one_player = refl

start_excluded_example : ◌≡◌ {A = ℕ} 1 1
start_excluded_example = start_excluded demo_format demo_config none few holding_run 1 1 refl refl

timer_lives : is_live (after_adopt.shared.tasks 0) ≡ true
unfolding new initial schedule_idle_shutdown take_timer
timer_lives = refl

one_timer_example : after_adopt.shared.idle_timer ≡ some 0
one_timer_example = one_timer demo_format demo_config none few adopted_run 0 timer_lives
