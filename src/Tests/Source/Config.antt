-- ===== src/Tests/Source/Config.antt =====
-- The tests of src/config.rs, on the tables of config.example.toml.
use redoxide.Common.{
  Bool, true, false, ◌&&◌, ◌≡◌, refl, ◌==◌, Bytes, [], ◌∷◌, ◌++◌, Option, none, some,
}
use redoxide.Config.{Config, codes, load}
use redoxide.Config.Table.{ConfigTable, from_table}
use redoxide.Config.Text.{same_text}

-- The two characters of the texts that are not ASCII.
abbrev section_sign : Bytes
section_sign = 0xc2 ∷ 0xa7 ∷ []

abbrev party_popper : Bytes
party_popper = 0xf0 ∷ 0x9f ∷ 0x8e ∷ 0x89 ∷ []

abbrev example_motd : Bytes
example_motd =
    section_sign
    ++ codes "c"
    ++ party_popper
    ++ codes " "
    ++ section_sign
    ++ codes "9"
    ++ section_sign
    ++ codes "lMy Server"
    ++ section_sign
    ++ codes "c! "
    ++ party_popper

abbrev example_table : ConfigTable
example_table = record {
  proxy = record {
    bind = codes "0.0.0.0:25565";
    server_address = codes "forbidden.samlo.cloud";
    handshake_timeout_secs = none;
  };
  target = record { host = codes "minecraft"; port = 25565 };
  docker = record {
    container_name = codes "minecraft-minecraft-1";
    startup_timeout_secs = 120;
    idle_shutdown_secs = 600;
  };
  status = record {
    protocol_version = 0;
    max_players = 20;
    online_motd = example_motd;
    version_name = codes "unknown";
    server_properties = none;
  };
  rcon = none;
}

-- No file but this one is there.
loaded : Option Config
unfolding load from_table
loaded = load (some (from_table example_table)) (λ path. none)

unwrapped : Option Config → (Config → Bool) → Bool
unwrapped none k = false
unwrapped (some c) k = k c

test_load_example_config : Bool
unfolding loaded unwrapped
test_load_example_config = unwrapped loaded (λ c.
    same_text c.proxy.server_address (codes "forbidden.samlo.cloud")
    && c.target.port == 25565
    && c.docker.startup_timeout_secs == 120
    && c.docker.idle_shutdown_secs == 600
    && c.status.protocol_version == 0)

loads_example : test_load_example_config ≡ true
unfolding test_load_example_config same_text
loads_example = refl

test_handshake_timeout_defaults_when_absent : Bool
unfolding loaded unwrapped
test_handshake_timeout_defaults_when_absent =
    unwrapped loaded (λ c. c.proxy.handshake_timeout_secs == 10)

defaults_timeout : test_handshake_timeout_defaults_when_absent ≡ true
unfolding test_handshake_timeout_defaults_when_absent
defaults_timeout = refl
