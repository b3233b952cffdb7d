-- ===== src/Tests/Process.antt =====
-- Examples for src/main.rs: starts with the container up, and the accept loop.
use redoxide.Common.{ℕ, ◌≡◌, refl, true, false, [], ◌∷◌, none, some, Bool, if◌then◌else◌}
use redoxide.Config.{codes}
use redoxide.Docker.Client.{Bollard}
use redoxide.Main.Boot.{World, boot, accept_loop}
use redoxide.Main.Boot.Outcomes.{Started, boot-Started}
use redoxide.Main.{startup}
use redoxide.Docker.Stop.{is_running}
use redoxide.Outcome.{err, accept_failed}
use redoxide.Proxy.Probe.Target.{decimal, target_of}
use redoxide.State.{
  stopping, new, adopt_running, schedule_idle_shutdown, take_timer, wakes, marks, timer_step,
  timer_steps, wake_timer, mark_stopping, update_version_info,
}
use redoxide.Tests.Fixture.{demo_config, demo_format, demo_dir}

-- A daemon that is older than the client, and whose container is up.
abbrev older : Bollard
older = record {
  Docker = Bool;
  connect_with_defaults = some true;
  negotiate_version = λ c. some false;
  inspect_container = λ c name. if c then none else some (some (some true));
}

abbrev world : World
world = record {
  parsed = some demo_config;
  read_to_string = λ path. none;
  cache_file = none;
  meanwhile = [];
  probe_server_version = λ target. some (47, codes "1.8");
  binds = λ address. true;
}

boot-Started_example :
    Started demo_format demo_dir older world (boot demo_format demo_dir older world)
boot-Started_example = boot-Started demo_format demo_dir older world

-- With a timer that is due at once, and wakes while the probe is under way, it starts Stopping.
stops_at_once :
    (startup demo_format demo_dir demo_config
      (some (some (some true)))
      none
      (wakes 0 ∷ marks 0 ∷ [])
      (some (47, codes "1.8"))).server
    ≡ stopping
unfolding startup is_running new adopt_running schedule_idle_shutdown take_timer timer_step
    timer_steps wake_timer mark_stopping update_version_info
stops_at_once = refl

-- The target of the configuration.
local_target : target_of demo_config.target ≡ codes "127.0.0.1:25566"
unfolding target_of decimal
local_target = refl

-- Two connections, then an error.
served :
    accept_loop {Stream = ℕ} (some 1 ∷ some 2 ∷ none ∷ some 3 ∷ [])
    ≡ record { spawned = 1 ∷ 2 ∷ []; ended = some (err accept_failed) }
unfolding accept_loop
served = refl
