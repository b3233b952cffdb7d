-- ===== src/Tests/Source/State.antt =====
-- The tests of src/state.rs. A pause of a test in which the tasks run is the steps of these tasks.
use redoxide.Common.{ℕ, Bool, true, false, not, ◌&&◌, ◌≡◌, refl, ◌==◌, Option, none, some}
use redoxide.Config.{codes, Config}
use redoxide.Outcome.{err, docker_failed}
use redoxide.State.{
  ServerState, starting, running, stopping, is_running_state, Timer, sleeping, over, SharedState,
  new, set_state, begin_session, drop_session, schedule_idle_shutdown, wake_timer, mark_stopping,
  finish_stop, adopt_running, cancel_idle_shutdown, take_timer,
}
use redoxide.Tests.Fixture.{demo_format}

abbrev test_config : Config
test_config = record {
  proxy = record {
    bind = codes "0.0.0.0:0";
    server_address = codes "test";
    handshake_timeout_secs = 10;
  };
  target = record { host = codes "127.0.0.1"; port = 0 };
  docker = record {
    container_name = codes "redoxide-test-nonexistent-container";
    startup_timeout_secs = 120;
    idle_shutdown_secs = 0;
  };
  status = record {
    protocol_version = 0;
    max_players = 20;
    online_motd = codes "test";
    version_name = codes "test";
    server_properties = none;
  };
  rcon = none;
}

abbrev test_state : SharedState
test_state = new demo_format test_config none

abbrev is_some : Option ℕ → Bool
is_some none = false
is_some (some i) = true

abbrev is_starting : ServerState → Bool
is_starting starting = true
is_starting _ = false

-- `JoinHandle::is_finished`
abbrev is_finished : Timer → Bool
is_finished over = true
is_finished _ = false

abbrev test_begin_session_increments_and_drop_decrements_player_count : Bool
test_begin_session_increments_and_drop_decrements_player_count =
    let begun = begin_session test_state in
    let dropped = (drop_session begun).0 in
    test_state.player_count == 0 && begun.player_count == 1 && dropped.player_count == 0

counts_session : test_begin_session_increments_and_drop_decrements_player_count ≡ true
unfolding new begin_session drop_session
counts_session = refl

-- The daemon does not know the container, so that its stop fails.
abbrev test_stop_failure_reverts_to_running_not_stopped : Bool
test_stop_failure_reverts_to_running_not_stopped =
    let scheduled = schedule_idle_shutdown (set_state running test_state) in
    let in_flight = mark_stopping 0 (wake_timer 0 scheduled) in
    is_running_state (finish_stop 0 (err docker_failed) in_flight).server

failed_stop : test_stop_failure_reverts_to_running_not_stopped ≡ true
unfolding new schedule_idle_shutdown take_timer wake_timer mark_stopping finish_stop
failed_stop = refl

abbrev test_adopt_running_arms_idle_shutdown_when_nobody_is_connected : Bool
test_adopt_running_arms_idle_shutdown_when_nobody_is_connected =
    let adopted = adopt_running test_state in
    is_running_state adopted.server && is_some adopted.idle_timer

adoption_arms : test_adopt_running_arms_idle_shutdown_when_nobody_is_connected ≡ true
unfolding new adopt_running schedule_idle_shutdown take_timer
adoption_arms = refl

abbrev test_adopt_running_leaves_timer_unarmed_while_a_player_is_connected : Bool
test_adopt_running_leaves_timer_unarmed_while_a_player_is_connected =
    let adopted = adopt_running (begin_session test_state) in
    is_running_state adopted.server && not (is_some adopted.idle_timer)

adoption_unarmed : test_adopt_running_leaves_timer_unarmed_while_a_player_is_connected ≡ true
unfolding new adopt_running schedule_idle_shutdown take_timer begin_session
adoption_unarmed = refl

abbrev test_adopt_running_does_not_overwrite_a_start_in_progress : Bool
test_adopt_running_does_not_overwrite_a_start_in_progress =
    let adopted = adopt_running (set_state starting test_state) in
    is_starting adopted.server && not (is_some adopted.idle_timer)

adoption_waits : test_adopt_running_does_not_overwrite_a_start_in_progress ≡ true
unfolding new adopt_running schedule_idle_shutdown take_timer
adoption_waits = refl

-- The task that stands for the stop in flight is number 0.
abbrev test_cancel_idle_shutdown_does_not_abort_in_flight_stop : Bool
test_cancel_idle_shutdown_does_not_abort_in_flight_stop =
    let installed : SharedState = record (set_state stopping test_state) {
      idle_timer = some 0;
      tasks = λ i. sleeping;
      spawned = 1;
    } in
    let cancelled = cancel_idle_shutdown installed in
    is_some cancelled.idle_timer && not (is_finished (cancelled.tasks 0))

stop_kept : test_cancel_idle_shutdown_does_not_abort_in_flight_stop ≡ true
unfolding new cancel_idle_shutdown take_timer
stop_kept = refl
