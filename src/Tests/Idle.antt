-- ===== src/Tests/Idle.antt =====
-- Examples for a container that nobody uses, and for logins that come together.
use redoxide.Common.{◌+◌, ◌<◌, ◌≤◌, ◌^◌, ◌≡◌, inl, refl, true, false, ℕ, none, arith}
use redoxide.Outcome.{docker_failed}
use redoxide.State.{
  new, running, in_stop, take_timer, schedule_idle_shutdown, wake_timer, mark_stopping,
  begin_session, finish_stop,
}
use redoxide.State.Timers.{is_live}
use redoxide.System.{
  System, Step, Reach, here, next, by_login, wake, mark, check_stop, find_down, take, begin, lock,
  resolve, claim, start, pass, initial,
}
use redoxide.System.Attended.{stop_failed, Watched, attended}
use redoxide.System.Idle.{failed, all_still, failed_stop_abandons}
use redoxide.System.Starts.{count_starts, count_downs, starts_once}
use redoxide.Tests.Fixture.{demo_config, demo_format}
use redoxide.Tests.Shared.{begun, after_adopt, adopted_run}

pub few : 3 < 2 ^ 64
few = omega arith

attended_example : Watched 3 after_adopt
unfolding stop_failed adopted_run new initial schedule_idle_shutdown take_timer
attended_example =
    attended demo_format demo_config none 3 after_adopt few adopted_run refl refl refl

-- The timer wakes, and stops the container.
abbrev woken : System
woken = record after_adopt { shared = wake_timer 0 after_adopt.shared }

abbrev pub stops : System
stops = record woken { shared = mark_stopping 0 woken.shared }

unfoldable pub stops_run : Reach 3 begun stops
unfolding new initial schedule_idle_shutdown take_timer wake_timer
stops_run = next (next adopted_run (wake 0 refl)) (mark 0 (inl refl))

-- Nobody is counted in it, and the timer is in `docker.stop`.
stops_alone : (stops.shared.player_count ≡ 0) × (stops.shared.tasks 0 ≡ in_stop)
unfolding new initial schedule_idle_shutdown take_timer wake_timer mark_stopping
stops_alone = (refl, refl)

-- Its stop fails, and the synchronisation finds the container down.
abbrev broken : System
broken = failed stops 0 docker_failed

abbrev found : System
found = record broken { found_down = true }

unfoldable found_run : Reach 3 broken found
unfolding finish_stop
found_run = next here (find_down refl)

found_still : all_still found_run ≡ true
unfolding all_still found_run
found_still = refl

failed_stop_abandons_example :
    Step 3 stops broken
    × (broken.shared.server ≡ running)
    × (found.shared.player_count ≡ 0)
    × ((j : ℕ) → is_live (found.shared.tasks j) ≡ false)
unfolding new initial
failed_stop_abandons_example =
    failed_stop_abandons demo_format demo_config none 3 stops 0 docker_failed few stops_run
      stops_alone.1 (λ k. refl) refl refl found found_run found_still

-- Login 0 starts the container, and login 1 comes behind it.
unfoldable pub together : (t : System) × Reach 3 begun t
unfolding new initial take_timer begin_session
together = (
  _,
  next
      (next
        (next
          (next
            (next
              (next
                (next
                  (next
                    (next
                      (next
                        (next
                          (next (next here (by_login 0 (omega arith) (check_stop refl)))
                            (by_login 0 (omega arith) take))
                          (by_login 0 (omega arith) begin))
                        (by_login 0 (omega arith) (lock refl)))
                      (by_login 0 (omega arith) (resolve refl)))
                    (by_login 0 (omega arith) (claim refl)))
                  (by_login 0 (omega arith) start))
                (by_login 1 (omega arith) (check_stop refl)))
              (by_login 1 (omega arith) take))
            (by_login 1 (omega arith) begin))
          (by_login 1 (omega arith) (lock refl)))
        (by_login 1 (omega arith) (resolve refl)))
      (by_login 1 (omega arith) (pass (λ h. cc))),
)

starts_once_example : count_starts together.1 ≤ count_downs together.1 + 1
starts_once_example =
    starts_once demo_format demo_config none 3 begun together.0 few here together.1

-- It was started once.
one_start : (count_starts together.1 ≡ 1) × (count_downs together.1 ≡ 0)
unfolding together count_starts count_downs
one_start = (refl, refl)
