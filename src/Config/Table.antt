-- ===== src/Config/Table.antt =====
-- src/config.rs: what the readers that serde derives make of the tables of a TOML file, for a key
-- that the file leaves out.
use redoxide.Common.{ℕ, Bytes, Option}
use redoxide.Config.{ProxyConfig, TargetConfig, DockerConfig, StatusConfig, RconConfig, Config}
use mathlib.Core.Option.{get_or}

pub default_handshake_timeout_secs : ℕ
default_handshake_timeout_secs = 10

-- The table `[proxy]`: the one key with a default may be missing.
pub record ProxyTable : Type 0 where
  pub bind : Bytes
  pub server_address : Bytes
  pub handshake_timeout_secs : Option ℕ

-- A file whose keys have the types of the fields. A missing table `[rcon]` is none, and so is a
-- missing key `server_properties`.
pub record ConfigTable : Type 0 where
  pub proxy : ProxyTable
  pub target : TargetConfig
  pub docker : DockerConfig
  pub status : StatusConfig
  pub rcon : Option RconConfig

pub proxy_config : ProxyTable → ProxyConfig
unfolding default_handshake_timeout_secs
proxy_config t = record {
  bind = t.bind;
  server_address = t.server_address;
  handshake_timeout_secs = get_or t.handshake_timeout_secs default_handshake_timeout_secs;
}

unfoldable pub from_table : ConfigTable → Config
unfolding proxy_config
from_table t = record {
  proxy = proxy_config t.proxy;
  target = t.target;
  docker = t.docker;
  status = t.status;
  rcon = t.rcon;
}
