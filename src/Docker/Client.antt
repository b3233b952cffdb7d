-- ===== src/Docker/Client.antt =====
-- DockerClient of src/docker.rs: how it is made. bollard is a parameter.
use redoxide.Common.{Bytes, Bool, Option, none, some}
use mathlib.Core.Option.{get_or}
use redoxide.Outcome.{Result, ok, err, docker_failed}

-- bollard's client, with the calls that are made of it once at startup; `none` is an error.
pub record Bollard : Type 1 where
  pub Docker : Type 0
  pub connect_with_defaults : Option Docker
  pub negotiate_version : Docker → Option Docker
  pub inspect_container : Docker → Bytes → Option (Option (Option Bool))

module _ (bollard : Bollard) where
  pub record DockerClient : Type 0 where
    pub client : bollard.Docker
    pub container_name : Bytes

  unfoldable pub connected : Bytes → Option bollard.Docker → Result DockerClient
  connected container_name none = err docker_failed
  connected container_name (some client) =
      ok (record { client = client; container_name = container_name })

  unfoldable pub new : Bytes → Result DockerClient
  unfolding connected
  new container_name = connected container_name bollard.connect_with_defaults

  -- The default version is kept where the negotiation fails.
  unfoldable pub negotiate_version : DockerClient → DockerClient
  negotiate_version d = record d { client = get_or (bollard.negotiate_version d.client) d.client }

  -- The answer to an inspection of the container.
  unfoldable pub inspected : DockerClient → Option (Option (Option Bool))
  inspected d = bollard.inspect_container d.client d.container_name
