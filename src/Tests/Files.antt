-- ===== src/Tests/Files.antt =====
-- Examples for the configuration, the version cache and the synchronisation.
use redoxide.Common.{◌≡◌, refl, true, Bytes, [], ◌∷◌, Option, none, some, Bool}
use redoxide.Config.{apply_server_properties, codes}
use redoxide.Config.Properties.{configured, apply_server_properties-configured}
use redoxide.Config.Text.{lines, trim, parse_u16, parse_i32}
use redoxide.Docker.Stop.{is_running}
use redoxide.Main.{startup}
use redoxide.State.{
  SharedState, new, stopped, update_version_info, timer_steps, protocol_version, version_name,
}
use redoxide.State.Memory.{Remembers, update_version_info-Remembers}
use redoxide.Tests.Fixture.{demo_config, demo_format, demo_dir}

trims : trim (codes "  a b\t") ≡ codes "a b"
unfolding trim mathlib.Core.List.flatten
trims = refl

two_lines : lines (codes "a\r\nb\n") ≡ codes "a" ∷ codes "b" ∷ []
unfolding lines
two_lines = refl

ports : (parse_u16 (codes "65535") ≡ some 65535) × (parse_u16 (codes "65536") ≡ none)
unfolding parse_u16
ports = (refl, refl)

numbers : (parse_i32 (codes "-1") ≡ some 0xffff_ffff) × (parse_i32 (codes "2147483648") ≡ none)
unfolding parse_i32
numbers = (refl, refl)

abbrev properties : Bytes
properties = codes "# a comment\nmax-players = 5\nmotd=Welcome\nmax-players=many\n"

apply_server_properties-configured_example :
    apply_server_properties demo_config (some properties)
    ≡ configured demo_config (lines properties)
apply_server_properties-configured_example =
    apply_server_properties-configured demo_config properties

abbrev fresh : SharedState
fresh = new demo_format demo_config none

abbrev container_up : Option (Option (Option Bool))
container_up = some (some (some true))

found_up : is_running container_up ≡ some true
unfolding is_running
found_up = refl

fresh_stopped : fresh.server ≡ stopped
unfolding new
fresh_stopped = refl

fresh_empty : fresh.player_count ≡ 0
unfolding new
fresh_empty = refl

-- A start with the container up: the probe's version replaces the configured one.
adopted :
    (startup demo_format demo_dir demo_config container_up none []
      (some (47, codes "1.8"))).detected_protocol
    ≡ 47
unfolding startup is_running update_version_info timer_steps
adopted = refl

fresh-Remembers : Remembers demo_format fresh
unfolding new protocol_version version_name
fresh-Remembers = (refl, refl)

update_version_info-Remembers_example :
    Remembers demo_format (update_version_info demo_format demo_dir 47 (codes "1.8") fresh)
    × (protocol_version (update_version_info demo_format demo_dir 47 (codes "1.8") fresh) ≡ 47)
    × (version_name (update_version_info demo_format demo_dir 47 (codes "1.8") fresh) ≡ codes "1.8")
update_version_info-Remembers_example =
    update_version_info-Remembers demo_format demo_dir 47 (codes "1.8") (47 ∷ codes "1.8") fresh
      refl refl refl refl fresh-Remembers
