-- ===== src/Main/Boot.antt =====
-- main of src/main.rs, from the configuration to the listener, and the loop that accepts
-- connections.
pub mod Outcomes
use redoxide.Common.{ℕ, Bool, Bytes, List, [], ◌∷◌, Option, none, some, if◌then◌else◌}
use redoxide.Config
use redoxide.Config.{Config}
use redoxide.Docker.Client
use redoxide.Docker.Client.{Bollard, DockerClient, negotiate_version, inspected}
use redoxide.Main.{startup}
use redoxide.Outcome.{Result, ok, err, panic, invalid_config, bind_failed, accept_failed}
use redoxide.Proxy.Probe.Target.{target_of}
use redoxide.State.{SharedState, TimerStep}
use redoxide.VersionCache.{CacheFormat, CacheDir}

-- What the process finds: what the TOML reader makes of config.toml, the files that can be read,
-- the version cache, what a probe of a target answers, what the idle timer does meanwhile, and the
-- addresses that can be bound.
pub record World : Type 0 where
  pub parsed : Option Config
  pub read_to_string : Bytes → Option Bytes
  pub cache_file : Option Bytes
  -- what the idle timer does in the time of the first probe
  pub meanwhile : List TimerStep
  pub probe_server_version : Bytes → Option (ℕ × Bytes)
  pub binds : Bytes → Bool

module _ (format : CacheFormat) (dir : CacheDir) (bollard : Bollard) where
  -- `TcpListener::bind`
  listening : World → Config → SharedState → Result SharedState
  listening w config shared = if w.binds config.proxy.bind then ok shared else err bind_failed

  with_docker : World → Config → Result (DockerClient bollard) → Result SharedState
  unfolding listening
  with_docker w config (ok docker) = listening w config (
      startup format dir config (inspected bollard (negotiate_version bollard docker)) w.cache_file
        w.meanwhile (w.probe_server_version (target_of config.target)))
  with_docker w config (err e) = err e
  with_docker w config panic = panic

  with_config : World → Option Config → Result SharedState
  unfolding with_docker
  with_config w none = err invalid_config
  with_config w (some config) =
      with_docker w config (Client.new bollard config.docker.container_name)

  -- The state with which the process listens.
  unfoldable pub boot : World → Result SharedState
  unfolding with_config
  boot w = with_config w (Config.load w.parsed w.read_to_string)

-- The connections that were given to tasks of their own, and the result of `main` where it ended.
pub record Serving (Stream : Type 0) : Type 0 where
  pub spawned : List Stream
  pub ended : Option (Result (Unit {0}))

-- The accept loop, over what `accept` yields; `none` is an error.
unfoldable pub accept_loop : {Stream : Type 0} → List (Option Stream) → Serving Stream
accept_loop [] = record { spawned = []; ended = none }
accept_loop (none ∷ incoming) = record { spawned = []; ended = some (err accept_failed) }
accept_loop (some stream ∷ incoming) =
    let rest = accept_loop incoming in record rest { spawned = stream ∷ rest.spawned }
