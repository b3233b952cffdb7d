-- ===== src/Tests/Player.antt =====
-- Examples for whole connections: a player gets through while the server boots.
use redoxide.Common.{
  ◌≡◌, refl, ap, ◌⊎◌, true, false, Bytes, List, [], ◌∷◌, ◌++◌, All, none, some, arith,
}
use redoxide.Common.Utf8.{is_utf8}
use redoxide.Config.{codes}
use redoxide.Config.Text.{same_text}
use redoxide.Outcome.{ok}
use redoxide.Protocol.Handshake.Parse.{HasNoNul}
use redoxide.Proxy.Forward.{Link, forward}
use redoxide.Proxy.Forward.Completion.{fine, copies_of}
use redoxide.Proxy.Forward.Delivery.{Delivered, forward-Delivered}
use redoxide.Proxy.Login.{Course, Session, await_stop, handle_connection}
use redoxide.Proxy.Login.Complete.{
  Player, IsPlayer, Boots, hello_of, start_of, connection_completes,
}
use redoxide.Proxy.Login.Safety.{Sent, Login, connection_safe}
use redoxide.Proxy.Login.Wakes.{connection_wakes}
use redoxide.Protocol.Packet.{RawPacket}
use redoxide.Protocol.Varint.{encode_varint}
use redoxide.Proxy.Wait.{Round, Branch, probe, keepalive, read, changed}
use redoxide.Proxy.Wait.Fair.{sends, Fits, Answers, Fair, asked}
use redoxide.Proxy.Wait.Keepalive.{queries}
use redoxide.State.{new, stopped, starting, stopping, is_stopped}
use redoxide.Tests.Fixture.{booting, host, demo_format, demo_dir, print_json}

abbrev pub steve : Player
steve = record {
  protocol = 770;
  host = host;
  port_hi = 99;
  port_lo = 221;
  name = codes "Steve";
  extra = 7 ∷ [];
}

pub host_nul : HasNoNul host
host_nul = ground arith

pub host_utf8 : is_utf8 host ≡ true
unfolding is_utf8
host_utf8 = refl

name_utf8 : is_utf8 (codes "Steve") ≡ true
unfolding is_utf8
name_utf8 = refl

pub same_host : same_text host host ≡ true
unfolding same_text
same_host = refl

pub steve-IsPlayer : IsPlayer steve
steve-IsPlayer = record {
  protocol_fits = omega arith;
  host_plain = host_nul;
  host_utf8 = host_utf8;
  host_fits = omega arith;
  name_utf8 = name_utf8;
  name_fits = omega arith;
  extra_fits = omega arith;
}

-- Two queries are answered, with another packet in between, and two bytes follow.
abbrev pub packets : List RawPacket
packets =
    record { id = 2; contents = 0 ∷ 0 ∷ [] }
    ∷ record { id = 4; contents = 9 ∷ [] }
    ∷ record { id = 2; contents = 1 ∷ 0 ∷ [] }
    ∷ []

abbrev pub behind : Bytes
behind = 3 ∷ 4 ∷ []

abbrev pub in_time : Branch → Round
in_time b = record { late = false; taken = 0; branch = b }

-- The first answer is read between the queries; the others come when the server is ready.
abbrev pub rounds : List Round
rounds =
    in_time (keepalive true)
    ∷ in_time (probe none)
    ∷ in_time read
    ∷ in_time (changed starting)
    ∷ in_time (keepalive true)
    ∷ in_time (probe (some (47, codes "1.8")))
    ∷ []

-- A stop ends while the login waits, the container is started, and the server sends three bytes.
abbrev pub course : Course
course = record {
  shared = booting;
  writes_status = true;
  writes_ping = true;
  stops = stopping ∷ stopped ∷ [];
  at_check = stopped;
  at_look = starting;
  rounds = rounds;
  link = fine;
  server = 8 ∷ 9 ∷ 10 ∷ [];
  events = copies_of behind (8 ∷ 9 ∷ 10 ∷ []);
}

pub packets-Fit : All Fits packets
unfolding encode_varint
packets-Fit = (
  record { id_fits = omega arith; fits = omega arith },
  (
    record { id_fits = omega arith; fits = omega arith },
    (record { id_fits = omega arith; fits = omega arith }, tt),
  ),
)

pub rounds-Fair : Fair 0 rounds packets
unfolding Fair Answers
rounds-Fair = (
  refl,
  refl,
  (
    refl,
    refl,
    (
      refl,
      refl,
      (
        λ a. omega arith,
        (refl, refl, (refl, refl, (refl, refl, (omega arith, (omega arith, refl))))),
      ),
    ),
  ),
)

course-Boots : Boots course packets behind
course-Boots = record {
  stop_over = refl;
  not_up = refl;
  not_down = refl;
  packets_fit = packets-Fit;
  schedule = rounds-Fair;
  connected = refl;
  copied = refl;
}

abbrev client : Bytes
client = hello_of steve ++ (start_of steve ++ sends packets behind)

abbrev session : Session
session = handle_connection print_json demo_format demo_dir (λ s. s) course client

connection_completes_example : session ≡ record {
  to_client = queries (asked rounds) ++ course.server;
  to_server = hello_of steve ++ (start_of steve ++ behind);
  starts = is_stopped course.at_check;
  ended = some (ok tt);
}
unfolding new
connection_completes_example =
    connection_completes print_json demo_format demo_dir (λ s. s) course steve packets behind
      steve-IsPlayer same_host course-Boots

connection_safe_example : (session.to_server ≡ []) ⊎ Sent (λ s. s) course client session.to_server
connection_safe_example = connection_safe print_json demo_format demo_dir (λ s. s) course client

started : session.starts ≡ true
unfolding new
started =
    ap (λ s. s.starts)
      (connection_completes print_json demo_format demo_dir (λ s. s) course steve packets behind
        steve-IsPlayer same_host course-Boots)

connection_wakes_example :
    (await_stop course.stops ≡ true) × (course.at_check ≡ stopped) × Login (λ s. s) course client
connection_wakes_example =
    connection_wakes print_json demo_format demo_dir (λ s. s) course client started

abbrev breaks : Link
breaks = record { connects = true; handshake_fails = none; login_fails = some 1 }

forward-Delivered_example :
    Delivered
      (1 ∷ 2 ∷ 5 ∷ behind)
      (8 ∷ [])
      (forward breaks (1 ∷ []) (2 ∷ 5 ∷ []) behind (8 ∷ []) [])
forward-Delivered_example = forward-Delivered breaks (1 ∷ []) (2 ∷ 5 ∷ []) behind (8 ∷ []) []
