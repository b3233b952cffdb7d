-- ===== src/Main.antt =====
-- src/main.rs: the adoption at startup, and one tick of the task that synchronises the state with
-- the container.
pub mod Sync
pub mod Boot
use redoxide.Common.{ℕ, Bool, true, false, Bytes, List, Option, none, some, if◌then◌else◌}
use redoxide.Config.{Config}
use redoxide.Docker.Stop.{is_running}
use redoxide.State.{
  ServerState, stopped, starting, running, stopping, SharedState, new, set_state, adopt_running,
  update_version_info, TimerStep, timer_steps,
}
use redoxide.VersionCache.{CacheFormat, CacheDir}
use mathlib.Core.Option.{get_or}

module _ (format : CacheFormat) (dir : CacheDir) where
  -- What a probe that answered, or did not, does to the state.
  unfoldable pub detect : Option (ℕ × Bytes) → SharedState → SharedState
  detect none s = s
  detect (some (protocol, version)) s = update_version_info format dir protocol version s

  -- The state with which `main` starts to listen: the answer of the daemon, the version cache, what
  -- the idle timer does while the probe is under way, and the answer to the probe.
  unfoldable pub startup :
      Config
      → Option (Option (Option Bool))
      → Option Bytes
      → List TimerStep
      → Option (ℕ × Bytes)
      → SharedState
  unfolding detect
  startup config inspection file meanwhile probe =
      let shared = new format config file in
      if get_or (is_running inspection) false
      then detect probe (timer_steps meanwhile (adopt_running shared))
      else shared

  -- `meanwhile` is what other tasks do to the state while the probe is under way.
  unfoldable pub by_state :
      Bool
      → ServerState
      → (SharedState → SharedState)
      → Option (ℕ × Bytes)
      → SharedState
      → SharedState
  unfolding detect
  by_state false running meanwhile probe s = set_state stopped s
  by_state true stopped meanwhile probe s = detect probe (meanwhile (adopt_running s))
  by_state _ _ meanwhile probe s = s

  unfoldable pub by_answer :
      Option Bool → (SharedState → SharedState) → Option (ℕ × Bytes) → SharedState → SharedState
  unfolding by_state
  by_answer none meanwhile probe s = s
  by_answer (some up) meanwhile probe s = by_state up s.server meanwhile probe s

  -- One tick that no other task interrupts but during its probe.
  unfoldable pub sync_tick :
      Option (Option (Option Bool))
      → (SharedState → SharedState)
      → Option (ℕ × Bytes)
      → SharedState
      → SharedState
  unfolding by_answer by_state detect
  sync_tick inspection meanwhile probe s = by_answer (is_running inspection) meanwhile probe s
