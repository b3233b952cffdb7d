-- ===== src/Config.antt =====
-- src/config.rs: the configuration, and what a server.properties file changes of it. The TOML
-- reader is a library; a file is what was read of it, `none` where it could not be read.
pub mod Text
pub mod Properties
pub mod Table
use redoxide.Common.{
  ℕ, Bool, true, false, not, ◌&&◌, ◌||◌, Bytes, List, [], ◌∷◌, Option, none, some, ◌==◌,
  if◌then◌else◌,
}
use redoxide.Config.Text.{starts_with, same_text, trim, lines, split_once, parse_u16, parse_i32}
use mathlib.Core.List.{foldl}
use mathlib.Core.Option.{get_or}
use Prim.Native.Char.{code}
use Prim.Native.String.{String}

pub record ProxyConfig : Type 0 where
  pub bind : Bytes
  pub server_address : Bytes
  pub handshake_timeout_secs : ℕ

pub record TargetConfig : Type 0 where
  pub host : Bytes
  pub port : ℕ

pub record DockerConfig : Type 0 where
  pub container_name : Bytes
  pub startup_timeout_secs : ℕ
  pub idle_shutdown_secs : ℕ

pub record RconConfig : Type 0 where
  pub host : Bytes
  pub port : ℕ
  pub password : Bytes

pub record StatusConfig : Type 0 where
  pub protocol_version : ℕ
  pub max_players : ℕ
  pub online_motd : Bytes
  pub version_name : Bytes
  pub server_properties : Option Bytes

pub record Config : Type 0 where
  pub proxy : ProxyConfig
  pub target : TargetConfig
  pub docker : DockerConfig
  pub status : StatusConfig
  pub rcon : Option RconConfig

-- The code points of a text, which are its bytes where it is ASCII, as the texts below are.
abbrev pub codes : String → Bytes
codes String.[] = []
codes (String.◌∷◌ c s) = code c ∷ codes s

-- The variables of `apply_server_properties`.
pub record Scan : Type 0 where
  pub config : Config
  pub rcon_enabled : Bool
  pub rcon_port : ℕ
  pub rcon_password : Bytes

-- The keys that the `match` names, and any other.
pub data Key : Type 0 where
  max_players motd enable_rcon rcon_port rcon_password other : Key

unfoldable pub key_of : Bytes → Key
unfolding same_text
key_of key =
    if same_text key (codes "max-players")
    then max_players
    else if same_text key (codes "motd")
    then motd
    else if same_text key (codes "enable-rcon")
    then enable_rcon
    else if same_text key (codes "rcon.port")
    then rcon_port
    else if same_text key (codes "rcon.password")
    then rcon_password
    else other

with_max_players : Scan → Option ℕ → Scan
with_max_players s none = s
with_max_players s (some n) = record s {
  config = record s.config { status = record s.config.status { max_players = n } };
}

-- The arms of the `match`, at the trimmed value.
unfoldable pub set_property : Scan → Key → Bytes → Scan
unfolding with_max_players
set_property s max_players value = with_max_players s (parse_i32 value)
set_property s motd value = record s {
  config = record s.config { status = record s.config.status { online_motd = value } };
}
set_property s enable_rcon value = record s { rcon_enabled = same_text value (codes "true") }
set_property s rcon_port value = record s { rcon_port = get_or (parse_u16 value) 25575 }
set_property s rcon_password value = record s { rcon_password = value }
set_property s other value = s

-- The key and the value of a line, trimmed; none for a comment, an empty line and one with no `=`.
pub property : Bytes → Option (Bytes × Bytes)
property raw =
    let line = trim raw in
    if starts_with b'#' line || same_text line [] then none else elim (split_once b'=' line) [
      | none ↦ none
      | some (key, value) ↦ some (trim key, trim value)
    ]

pub read_line : Scan → Bytes → Scan
read_line s raw = elim (property raw) [
  | none ↦ s
  | some (key, value) ↦ set_property s (key_of key) value
]

-- Behind the loop.
pub set_rcon : Scan → Config
set_rcon s =
    if s.rcon_enabled && not (same_text s.rcon_password [])
    then elim s.config.rcon [
      | some r ↦ s.config
      | none ↦ record s.config {
        rcon = some (record {
          host = s.config.target.host;
          port = s.rcon_port;
          password = s.rcon_password;
        });
      }
    ]
    else s.config

pub scan_lines : Config → Bytes → Scan
scan_lines config contents =
    foldl read_line
      (record { config = config; rcon_enabled = false; rcon_port = 25575; rcon_password = [] })
      (lines contents)

pub apply_server_properties : Config → Option Bytes → Config
apply_server_properties config none = config
apply_server_properties config (some contents) = set_rcon (scan_lines config contents)

-- `load`, from the configuration that the TOML reader made of the file, if it made one, and the
-- files that can be read.
unfoldable pub load : Option Config → (Bytes → Option Bytes) → Option Config
load none read_to_string = none
load (some config) read_to_string = elim config.status.server_properties [
  | none ↦ some config
  | some path ↦ some (apply_server_properties config (read_to_string path))
]
