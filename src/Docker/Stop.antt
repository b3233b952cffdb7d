-- ===== src/Docker/Stop.antt =====
-- DockerClient of src/docker.rs: `is_running`, `start` and `stop`. The daemon is what it answers.
pub mod Outcomes
use redoxide.Common.{ℕ, zero, suc, ◌+◌, Bool, true, false, not, Option, none, some, if◌then◌else◌}
use redoxide.Config.{RconConfig}
use redoxide.Docker.Rcon.{Peer, rcon_stop}
use redoxide.Outcome.{Result, ok, err, panic, docker_failed}
use mathlib.Core.Option.{get_or}

-- The answers of the Docker daemon to one `stop` (or `start`), `none` for an error: to the k-th
-- inspection, the container's state with its flag, either of which may be missing.
pub record Daemon : Type 0 where
  pub inspect_container : ℕ → Option (Option (Option Bool))
  pub start_container : Option (Unit {0})
  pub stop_container : Option (Unit {0})

running_flag : Option (Option Bool) → Bool
running_flag none = false
running_flag (some flag) = get_or flag false

-- `none` where the inspection failed
unfoldable pub is_running : Option (Option (Option Bool)) → Option Bool
unfolding running_flag
is_running none = none
is_running (some state) = some (running_flag state)

abbrev pub answered : Option (Unit {0}) → Result (Unit {0})
answered none = err docker_failed
answered (some u) = ok u

pub start : Daemon → Result (Unit {0})
start d = answered d.start_container

-- How a `stop` ended, and whether it used `docker stop`.
pub record Stop : Type 0 where
  pub outcome : Result (Unit {0})
  pub forced : Bool

abbrev pub max_polls : ℕ
max_polls = 30

-- The polls behind the RCON command, `left` of them from the k-th on: does one find the container
-- down? A failed inspection counts as running.
pub exits : Daemon → ℕ → ℕ → Bool
exits d zero k = false
exits d (suc left) k =
    let later = exits d left (k + 1) in
    if not (get_or (is_running (d.inspect_container k)) true) then true else later

force : Daemon → Stop
force d = record { outcome = answered d.stop_container; forced = true }

after_rcon : Daemon → Result (Unit {0}) → Stop
unfolding force
after_rcon d (ok u) =
    if exits d max_polls 0 then record { outcome = ok tt; forced = false } else force d
after_rcon d (err e) = force d
after_rcon d panic = record { outcome = panic; forced = false }

unfoldable pub stop : Option RconConfig → Peer → Daemon → Stop
unfolding force after_rcon
stop none peer d = force d
stop (some rcon) peer d = after_rcon d (rcon_stop rcon peer).outcome
