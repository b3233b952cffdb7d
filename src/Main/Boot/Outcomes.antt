-- ===== src/Main/Boot/Outcomes.antt =====
-- How the start of the process ends.
use redoxide.Common.{
  ℕ, ◌≡◌, refl, ◌⊎◌, inl, inr, Bool, true, false, Bytes, List, [], ◌∷◌, ◌∙◌, Option, none, some,
  if◌then◌else◌, Bool-cases, arith,
}
use redoxide.Config
use redoxide.Config.{Config}
use redoxide.Docker.Client
use redoxide.Docker.Client.{Bollard, DockerClient, negotiate_version, inspected, connected}
use redoxide.Docker.Stop.{is_running}
use redoxide.Main.{startup, detect}
use redoxide.Main.Boot.{World, boot, with_config, with_docker, listening}
use redoxide.Outcome.{Result, ok, err, panic, invalid_config, bind_failed, docker_failed}
use redoxide.Proxy.Probe.Target.{target_of}
use redoxide.State.{
  SharedState, sleeping, stopped, running, new, adopt_running, schedule_idle_shutdown, take_timer,
  protocol_version, version_name, update_version_info, TimerStep, wakes, marks, ends, timer_step,
  timer_steps, wake_timer, mark_stopping, finish_stop,
}
use redoxide.VersionCache
use redoxide.VersionCache.{VersionCache, CacheFormat, CacheDir}
use mathlib.Core.Option
use mathlib.Core.Option.{get_or}

-- The version to show: what the probe says, else what the cache holds, else what is configured.
abbrev shown : Config → Option VersionCache → Option (ℕ × Bytes) → ℕ × Bytes
shown config cached (some detected) = detected
shown config (some c) none = (c.protocol, c.version)
shown config none none = (config.status.protocol_version, config.status.version_name)

-- A state in which the container was found up, or not, with what the idle timer did meanwhile.
pub record Ready (format : CacheFormat) (config : Config) (file : Option Bytes)
    (meanwhile : List TimerStep) (probe : Option (ℕ × Bytes)) (up : Bool) (s : SharedState)
    : Type 0 where
  pub nobody : s.player_count ≡ 0
  pub timer : s.idle_timer ≡ (if up then some 0 else none)
  pub version :
      (protocol_version s, version_name s)
      ≡ shown config (VersionCache.load format file) (if up then probe else none)
  pub down : up ≡ false → s.server ≡ stopped
  -- where the timer outlasts the probe
  pub untouched : up ≡ true → meanwhile ≡ [] → (s.server ≡ running) × (s.tasks 0 ≡ sleeping)

cached-shown :
    (config : Config) (cached : Option VersionCache)
    → (
      get_or (Option.map (λ c. c.protocol) cached) config.status.protocol_version,
      get_or (Option.map (λ c. c.version) cached) config.status.version_name,
    )
      ≡ shown config cached none
cached-shown config none = refl
cached-shown config (some c) = refl

-- What the timers leave alone.
record Same (s t : SharedState) : Type 0 where
  config : t.config ≡ s.config
  count : t.player_count ≡ s.player_count
  timer : t.idle_timer ≡ s.idle_timer
  protocol : t.detected_protocol ≡ s.detected_protocol
  version : t.detected_version ≡ s.detected_version

timer_step-Same : (s : SharedState) (x : TimerStep) → Same s (timer_step s x)
unfolding timer_step wake_timer mark_stopping finish_stop
timer_step-Same s (wakes i) = record {
  config = ground arith;
  count = ground arith;
  timer = ground arith;
  protocol = ground arith;
  version = ground arith;
}
timer_step-Same s (marks i) = record {
  config = ground arith;
  count = ground arith;
  timer = ground arith;
  protocol = ground arith;
  version = ground arith;
}
timer_step-Same s (ends i r) = record {
  config = ground arith;
  count = ground arith;
  timer = ground arith;
  protocol = ground arith;
  version = ground arith;
}

timer_steps-Same : (xs : List TimerStep) (s : SharedState) → Same s (timer_steps xs s)
unfolding timer_steps
timer_steps-Same [] s = record {
  config = refl;
  count = refl;
  timer = refl;
  protocol = refl;
  version = refl;
}
timer_steps-Same (x ∷ xs) s =
    let a = timer_step-Same s x in
    let b = timer_steps-Same xs (timer_step s x) in
    record {
      config = b.config ∙ a.config;
      count = b.count ∙ a.count;
      timer = b.timer ∙ a.timer;
      protocol = b.protocol ∙ a.protocol;
      version = b.version ∙ a.version;
    }

module _ (format : CacheFormat) (dir : CacheDir) (config : Config) (file : Option Bytes)
    (meanwhile : List TimerStep) where
  down-Ready :
      (probe : Option (ℕ × Bytes))
      → Ready format config file meanwhile probe false (new format config file)
  unfolding new protocol_version version_name
  down-Ready probe = record {
    nobody = refl;
    timer = refl;
    version = cached-shown config (VersionCache.load format file);
    down = λ h. refl;
    untouched = λ h. cc;
  }

  up-Ready :
      (probe : Option (ℕ × Bytes))
      → Ready format config file meanwhile probe true
          (detect format dir probe (timer_steps meanwhile (adopt_running (new format config file))))
  unfolding detect new adopt_running schedule_idle_shutdown take_timer protocol_version version_name
      update_version_info timer_steps
  up-Ready none =
      let b = timer_steps-Same meanwhile (adopt_running (new format config file)) in
      record {
        nobody = b.count;
        timer = b.timer;
        version =
            rw (b.protocol, b.version, b.config)
              (cached-shown config (VersionCache.load format file));
        down = λ h. cc;
        untouched = λ h e. rw e (refl, refl);
      }
  up-Ready (some (protocol, version)) =
      let b = timer_steps-Same meanwhile (adopt_running (new format config file)) in
      record {
        nobody = b.count;
        timer = b.timer;
        version = refl;
        down = λ h. cc;
        untouched = λ h e. rw e (refl, refl);
      }

  startup-Ready :
      (inspection : Option (Option (Option Bool))) (probe : Option (ℕ × Bytes))
      → Ready format config file meanwhile probe
          (get_or (is_running inspection) false)
          (startup format dir config inspection file meanwhile probe)
  unfolding startup
  startup-Ready inspection probe = elim (Bool-cases (get_or (is_running inspection) false)) [
    | inl up ↦ rw up (up-Ready probe)
    | inr down ↦ rw down (down-Ready probe)
  ]

module _ (format : CacheFormat) (dir : CacheDir) (bollard : Bollard) where
  -- How a start may end, with what it found.
  abbrev pub Started : World → Result SharedState → Type 0
  Started w (ok s) =
      (config : Config) × (client : bollard.Docker) × (Config.load w.parsed w.read_to_string
        ≡ some config)
      × (bollard.connect_with_defaults ≡ some client)
      × (w.binds config.proxy.bind ≡ true)
      × Ready format config w.cache_file w.meanwhile
          (w.probe_server_version (target_of config.target))
          (get_or
            (is_running (
              bollard.inspect_container (get_or (bollard.negotiate_version client) client)
                config.docker.container_name))
            false)
          s
  Started w (err e) =
      ((e ≡ invalid_config) × (Config.load w.parsed w.read_to_string ≡ none))
      ⊎ ((config : Config) × (Config.load w.parsed w.read_to_string ≡ some config)
          × (((e ≡ docker_failed) × (bollard.connect_with_defaults ≡ none))
              ⊎ ((e ≡ bind_failed)
                  × ((client : bollard.Docker) × (bollard.connect_with_defaults ≡ some client)
                      × (w.binds config.proxy.bind ≡ false)))))
  Started w panic = ⊥

  listening-Started :
      (w : World) (config : Config) (client : bollard.Docker)
      → Config.load w.parsed w.read_to_string ≡ some config
      → bollard.connect_with_defaults ≡ some client
      → Started w (
          with_docker format dir bollard w config
            (ok (record { client = client; container_name = config.docker.container_name })))
  unfolding with_docker listening negotiate_version inspected
  listening-Started w config client c d = elim (Bool-cases (w.binds config.proxy.bind)) [
    | inl bound ↦ rw bound (
      config,
      client,
      c,
      d,
      bound,
      startup-Ready format dir config w.cache_file w.meanwhile _
          (w.probe_server_version (target_of config.target)),
    )
    | inr taken ↦ rw taken (inr (config, c, inr (refl, (client, d, taken))))
  ]

  connected-Started :
      (w : World) (config : Config) (o : Option bollard.Docker)
      → Config.load w.parsed w.read_to_string ≡ some config
      → bollard.connect_with_defaults ≡ o
      → Started w (
          with_docker format dir bollard w config
            (connected bollard config.docker.container_name o))
  unfolding with_docker connected
  connected-Started w config none c d = inr (config, c, inl (refl, d))
  connected-Started w config (some client) c d = listening-Started w config client c d

  with_config-Started :
      (w : World) (o : Option Config)
      → Config.load w.parsed w.read_to_string ≡ o
      → Started w (with_config format dir bollard w o)
  unfolding with_config Client.new
  with_config-Started w none c = inl (refl, c)
  with_config-Started w (some config) c =
      connected-Started w config bollard.connect_with_defaults c refl

  -- The process listens only with a configuration, a client of the Docker daemon and its address;
  -- the first of these, in this order, that it cannot get is its error. Otherwise it starts with
  -- nobody connected, with the version of the probe, else of the cache, else of the configuration,
  -- and with an idle timer exactly where the daemon says that the container is up (a failed
  -- inspection, or negotiation, is no error). Its state is Stopped where that is not so; where it is
  -- so, and the timer makes no step while the probe is under way, the state is Running and the timer
  -- sleeps.
  pub boot-Started : (w : World) → Started w (boot format dir bollard w)
  unfolding boot
  boot-Started w = with_config-Started w (Config.load w.parsed w.read_to_string) refl
