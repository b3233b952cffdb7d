-- ===== src/Tests/Fixture.antt =====
-- The values that the examples share.
use redoxide.Common.{Bytes, [], ◌∷◌, Option, none, some, true}
use redoxide.State.{SharedState, new, set_state, starting}
use redoxide.Config.{Config, RconConfig, codes}
use redoxide.Status.{Json, number, string, object, field}
use redoxide.VersionCache.{VersionCache, CacheFormat, CacheDir}

abbrev pub host : Bytes
host = codes "mc.example.org"

abbrev pub demo_config : Config
demo_config = record {
  proxy = record {
    bind = codes "0.0.0.0:25565";
    server_address = host;
    handshake_timeout_secs = 10;
  };
  target = record { host = codes "127.0.0.1"; port = 25566 };
  docker = record {
    container_name = codes "mc";
    startup_timeout_secs = 120;
    idle_shutdown_secs = 300;
  };
  status = record {
    protocol_version = 770;
    max_players = 20;
    online_motd = codes "hi";
    version_name = codes "1.21.5";
    server_properties = none;
  };
  rcon = none;
}

abbrev pub demo_rcon : RconConfig
demo_rcon = record { host = codes "127.0.0.1"; port = 25575; password = codes "secret" }

-- A format of the version cache: the protocol, then the text.
abbrev pub parse_cache : Bytes → Option VersionCache
parse_cache [] = none
parse_cache (p ∷ v) = some (record { protocol = p; version = v })

abbrev pub demo_format : CacheFormat
demo_format = record {
  to_string_pretty = λ c. some (c.protocol ∷ c.version);
  from_str = parse_cache;
}

abbrev pub demo_dir : CacheDir
demo_dir = record { creates_dir = true; writes = true }

-- A printer that keeps of a status its protocol and its version name.
abbrev pub print_json : Json → Bytes
print_json (object (field k (object (field n (string name) (field q (number p) e))) f)) = p ∷ name
print_json j = codes "{}"

abbrev pub booting : SharedState
booting = set_state starting (new demo_format demo_config none)
