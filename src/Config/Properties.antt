-- ===== src/Config/Properties.antt =====
-- What a server.properties file changes, by the last setting of each key.
use redoxide.Common.{
  ℕ, ◌≡◌, refl, ◌∙◌, Bool, false, not, ◌&&◌, Bytes, List, [], ◌∷◌, Option, none, some, ◌==◌, arith,
  if◌then◌else◌,
}
use redoxide.Config.Text.{same_text, lines, parse_u16, parse_i32}
use redoxide.Config.{
  Config, RconConfig, Scan, Key, max_players, motd, enable_rcon, rcon_port, rcon_password, other,
  key_of, codes, set_property, property, read_line, set_rcon, scan_lines, apply_server_properties,
}
use mathlib.Core.List.{foldl}
use mathlib.Core.Option
use mathlib.Core.Option.{get_or}

-- The setting that a line makes of a given key.
abbrev index : Key → ℕ
index max_players = 0
index motd = 1
index enable_rcon = 2
index rcon_port = 3
index rcon_password = 4
index other = 5

pub setting : Key → Bytes → Option Bytes
setting k line = elim (property line) [
  | none ↦ none
  | some (key, value) ↦ if index (key_of key) == index k then some value else none
]

pub or_else {ℓ} : {A : Type ℓ} → Option A → Option A → Option A
or_else (some a) o = some a
or_else none o = o

-- The value of the last line that sets the key.
pub last_setting : Key → List Bytes → Option Bytes
unfolding or_else
last_setting k [] = none
last_setting k (l ∷ ls) = or_else (last_setting k ls) (setting k l)

abbrev then_parse : {A : Type 0} → (Bytes → Option A) → Option Bytes → Option A
then_parse parse none = none
then_parse parse (some v) = parse v

-- The number of the last such line whose value is a number.
pub last_number : List Bytes → Option ℕ
unfolding or_else
last_number [] = none
last_number (l ∷ ls) = or_else (last_number ls) (then_parse parse_i32 (setting max_players l))

get_or-or_else {ℓ} :
    {A : Type ℓ} (o p : Option A) (a : A) → get_or (or_else o p) a ≡ get_or o (get_or p a)
unfolding or_else
get_or-or_else (some x) p a = refl
get_or-or_else none p a = refl

abbrev motd_of : Scan → Bytes
motd_of s = s.config.status.online_motd

abbrev players_of : Scan → ℕ
players_of s = s.config.status.max_players

abbrev enabled : Bytes → Bool
enabled value = same_text value (codes "true")

abbrev port_of : Bytes → ℕ
port_of value = get_or (parse_u16 value) 25575

-- What the scan leaves alone: all but the two fields of the status that it may set.
abbrev settled : Scan → Config
settled s = record s.config {
  status = record s.config.status { max_players = 0; online_motd = [] };
}

module _ (s : Scan) (l : Bytes) where
  read_line-motd : motd_of (read_line s l) ≡ get_or (setting motd l) (motd_of s)
  unfolding read_line setting set_property
  read_line-motd = ground arith

  read_line-players :
      players_of (read_line s l)
      ≡ get_or (then_parse parse_i32 (setting max_players l)) (players_of s)
  unfolding read_line setting set_property
  read_line-players = ground arith

  read_line-enabled :
      (read_line s l).rcon_enabled
      ≡ get_or (Option.map enabled (setting enable_rcon l)) s.rcon_enabled
  unfolding read_line setting set_property
  read_line-enabled = ground arith

  read_line-port :
      (read_line s l).rcon_port ≡ get_or (Option.map port_of (setting rcon_port l)) s.rcon_port
  unfolding read_line setting set_property
  read_line-port = ground arith

  read_line-password :
      (read_line s l).rcon_password ≡ get_or (setting rcon_password l) s.rcon_password
  unfolding read_line setting set_property
  read_line-password = ground arith

  read_line-settled : settled (read_line s l) ≡ settled s
  unfolding read_line set_property
  read_line-settled = ground arith

map-or_else {ℓ κ} :
    {A : Type ℓ} {B : Type κ} (f : A → B) (o p : Option A)
    → Option.map f (or_else o p) ≡ or_else (Option.map f o) (Option.map f p)
unfolding or_else
map-or_else f (some x) p = refl
map-or_else f none p = refl

-- The scan ends with the last setting of each key, or what it began with.
record Scanned (s t : Scan) (ls : List Bytes) : Type 0 where
  motd : motd_of t ≡ get_or (last_setting Key.motd ls) (motd_of s)
  players : players_of t ≡ get_or (last_number ls) (players_of s)
  rcon_enabled :
      t.rcon_enabled ≡ get_or (Option.map enabled (last_setting enable_rcon ls)) s.rcon_enabled
  rcon_port : t.rcon_port ≡ get_or (Option.map port_of (last_setting Key.rcon_port ls)) s.rcon_port
  rcon_password : t.rcon_password ≡ get_or (last_setting Key.rcon_password ls) s.rcon_password
  rest : settled t ≡ settled s

foldl-Scanned : (ls : List Bytes) (s : Scan) → Scanned s (foldl read_line s ls) ls
unfolding last_setting last_number
foldl-Scanned [] s = record {
  motd = refl;
  players = refl;
  rcon_enabled = refl;
  rcon_port = refl;
  rcon_password = refl;
  rest = refl;
}
foldl-Scanned (l ∷ ls) s =
    let ih = foldl-Scanned ls (read_line s l) in
    record {
      motd = ih.motd ∙ rw (get_or-or_else, read_line-motd);
      players = ih.players ∙ rw (get_or-or_else, read_line-players);
      rcon_enabled = ih.rcon_enabled ∙ rw (map-or_else, get_or-or_else, read_line-enabled);
      rcon_port = ih.rcon_port ∙ rw (map-or_else, get_or-or_else, read_line-port);
      rcon_password = ih.rcon_password ∙ rw (get_or-or_else, read_line-password);
      rest = ih.rest ∙ read_line-settled s l;
    }

-- The RCON configuration that the file gives: only where it is enabled, with a password.
abbrev pub rcon_from : Config → List Bytes → Option RconConfig
rcon_from config ls =
    let password : Bytes = get_or (last_setting Key.rcon_password ls) [] in
    if get_or (Option.map enabled (last_setting enable_rcon ls)) false
      && not (same_text password [])
    then some (record {
      host = config.target.host;
      port = get_or (Option.map port_of (last_setting Key.rcon_port ls)) 25575;
      password = password;
    })
    else none

-- The configuration, with what the last setting of each key says in its place.
abbrev pub configured : Config → List Bytes → Config
configured config ls = record config {
  status = record config.status {
    max_players = get_or (last_number ls) config.status.max_players;
    online_motd = get_or (last_setting motd ls) config.status.online_motd;
  };
  rcon = or_else config.rcon (rcon_from config ls);
}

set_rcon-Scanned :
    (config : Config) (t : Scan) (ls : List Bytes)
    → Scanned
        (record { config = config; rcon_enabled = false; rcon_port = 25575; rcon_password = [] })
        t
        ls
    → set_rcon t ≡ configured config ls
unfolding set_rcon or_else
set_rcon-Scanned config t ls h = ground arith

-- A server.properties file that can be read leaves the configuration with the last max-players that
-- is a number and the last motd, where the file has any, and, if there was no RCON configuration,
-- with one from the file if its last enable-rcon is `true` and its last password is not empty.
-- Nothing else changes.
pub apply_server_properties-configured :
    (config : Config) (contents : Bytes)
    → apply_server_properties config (some contents) ≡ configured config (lines contents)
unfolding apply_server_properties scan_lines
apply_server_properties-configured config contents =
    set_rcon-Scanned config _ (lines contents) (foldl-Scanned (lines contents) _)
