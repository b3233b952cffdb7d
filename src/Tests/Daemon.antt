-- ===== src/Tests/Daemon.antt =====
-- Examples for src/docker.rs.
use redoxide.Common.{
  ℕ, zero, suc, ◌≡◌, ◌≢◌, ◌++◌, refl, true, false, Bool, Bytes, [], ◌∷◌, Option, none, some, length,
  arith,
}
use redoxide.Common.Utf8.{is_utf8}
use redoxide.Config.{codes}
use redoxide.Docker.Rcon.{Peer, rcon_send, rcon_recv, rcon_stop, to_le_bytes}
use redoxide.Docker.Rcon.Wire.{rcon_recv-rcon_send}
use redoxide.Docker.Stop.{Daemon, is_running, stop, max_polls}
use redoxide.Docker.Stop.Outcomes.{SeenDown, Confirmed, stop-Confirmed, stop_graceful, stop_panics}
use redoxide.Outcome.{ok, panic}
use redoxide.Tests.Fixture.{demo_rcon}

stop_utf8 : is_utf8 (codes "stop") ≡ true
unfolding is_utf8
stop_utf8 = refl

no_utf8 : is_utf8 [] ≡ true
unfolding is_utf8
no_utf8 = refl

rcon_recv-rcon_send_example :
    rcon_recv (rcon_send 2 2 (codes "stop") ++ (5 ∷ []))
    ≡ ok (record { id = 2; pkt_type = 2; payload = codes "stop" }, 5 ∷ [])
rcon_recv-rcon_send_example =
    rcon_recv-rcon_send 2 2 (codes "stop") (5 ∷ []) (omega arith) (omega arith) stop_utf8
      (omega arith)

abbrev short : Bytes
short = 1 ∷ 2 ∷ 3 ∷ []

-- The container is down at the third poll.
abbrev third : ℕ → Option (Option (Option Bool))
third zero = some (some (some true))
third (suc zero) = none
third (suc (suc k)) = some (some (some false))

abbrev leaving : Daemon
leaving = record { inspect_container = third; start_container = none; stop_container = none }

abbrev lasting : Daemon
lasting = record {
  inspect_container = λ k. some (some (some true));
  start_container = none;
  stop_container = some tt;
}

abbrev welcoming : Peer
welcoming = record {
  connects = true;
  takes_auth = true;
  takes_command = true;
  reply = rcon_send 1 2 [] ++ [];
}

abbrev absent : Peer
absent = record { connects = false; takes_auth = false; takes_command = false; reply = [] }

abbrev broken : Peer
broken = record {
  connects = true;
  takes_auth = true;
  takes_command = true;
  reply = to_le_bytes (length short) ++ (short ++ []);
}

seen_third : SeenDown leaving 0 max_polls
unfolding is_running
seen_third = record { poll = 2; from = omega arith; until = omega arith; down = refl }

answer_read :
    rcon_recv (rcon_send 1 2 [] ++ []) ≡ ok (record { id = 1; pkt_type = 2; payload = [] }, [])
answer_read = rcon_recv-rcon_send 1 2 [] [] (omega arith) (omega arith) no_utf8 (omega arith)

command_sent : (rcon_stop demo_rcon welcoming).outcome ≡ ok tt
unfolding rcon_stop
command_sent = rw answer_read refl

gracefully : stop (some demo_rcon) welcoming leaving ≡ record { outcome = ok tt; forced = false }
gracefully = stop_graceful demo_rcon welcoming leaving command_sent seen_third

stop-Confirmed_example : Confirmed leaving (stop (some demo_rcon) welcoming leaving)
stop-Confirmed_example = stop-Confirmed (some demo_rcon) welcoming leaving (rw gracefully refl)

not_connected : (rcon_stop demo_rcon absent).outcome ≢ panic
unfolding rcon_stop
not_connected h = cc

never_down : ¬ SeenDown lasting 0 max_polls
unfolding is_running
never_down s = cc s.down

stop_panics_example :
    stop (some demo_rcon) broken lasting ≡ record { outcome = panic; forced = false }
stop_panics_example = stop_panics demo_rcon broken lasting short [] refl refl refl (omega arith)
