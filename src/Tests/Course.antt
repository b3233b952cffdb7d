-- ===== src/Tests/Course.antt =====
-- Examples for connections that are not forwarded, and for what connections write.
use redoxide.Common.{
  ℕ, ◌≤◌, ◌≡◌, refl, true, false, Bytes, [], ◌∷◌, ◌++◌, length, Option, none, some, if◌then◌else◌,
  arith,
}
use redoxide.Config.{codes}
use redoxide.Outcome.{ok, startup_timeout}
use redoxide.Protocol.Packet.{max_string_len}
use redoxide.Protocol.Varint.{IsI32}
use redoxide.Proxy.Connection.{effective_status}
use redoxide.Proxy.Login.{Course, Session, handle_connection}
use redoxide.Proxy.Login.Complete.{hello_of, start_of, hello_dispatched, start_read}
use redoxide.Proxy.Login.Failure.{handle_connection-bail}
use redoxide.Proxy.Login.Probed.{shown_text, Targets, handle_connection-probe_reply}
use redoxide.Proxy.Probe.{JsonReader, probe_host, probe_request, probe_reply}
use redoxide.Proxy.Probe.Exchange.{ReadsBack}
use redoxide.Proxy.Wait.{
  Wait, probe, keepalive, bail, begin_wait, wait_round, wait_loop, drain, disconnect,
  send_keepalive, on_branch, and_then, wait_for_server_with,
}
use redoxide.Proxy.Wait.Keepalive.{queries}
use redoxide.Proxy.Wait.Rule.{is_told, farewell}
use redoxide.State.{new, is_stopped, protocol_version, version_name}
use redoxide.Status.{build_status_json, status_value}
use redoxide.VersionCache
use redoxide.Tests.Fixture.{booting, host, demo_config, demo_format, demo_dir, print_json}
use redoxide.Tests.Player.{steve, steve-IsPlayer, same_host, host_nul, host_utf8, course, behind}

-- The deadline passes behind a query.
abbrev late_course : Course
late_course = record course {
  rounds =
      record { late = false; taken = 0; branch = keepalive true }
      ∷ record { late = true; taken = 0; branch = probe none }
      ∷ [];
}

abbrev overdue : Wait
overdue = record (begin_wait booting behind) {
  keepalive_id = 1;
  unanswered = 1;
  written = queries 1 ++ farewell print_json;
  sent = 1;
}

overdue_bails :
    wait_for_server_with print_json demo_format demo_dir late_course.rounds booting behind
    ≡ bail startup_timeout overdue
unfolding wait_for_server_with begin_wait wait_loop wait_round on_branch and_then drain disconnect
    send_keepalive
overdue_bails = refl

abbrev waiting_client : Bytes
waiting_client = hello_of steve ++ (start_of steve ++ behind)

handle_connection-bail_example :
    handle_connection print_json demo_format demo_dir (λ s. s) late_course waiting_client ≡ record {
      to_client =
          queries overdue.sent ++ (if is_told startup_timeout then farewell print_json else []);
      to_server = [];
      starts = is_stopped late_course.at_check;
      ended = some (ok tt);
    }
unfolding new
handle_connection-bail_example =
    handle_connection-bail print_json demo_format demo_dir (λ s. s) late_course waiting_client
      (record { protocol_version = 770; server_address = host; next_state = 2 }) (hello_of steve)
      (start_of steve ++ behind)
      (record { username = codes "Steve"; login_raw = start_of steve; rest = behind })
      startup_timeout overdue
      (hello_dispatched steve steve-IsPlayer (λ s. s) demo_config (start_of steve ++ behind)
        same_host)
      (start_read steve steve-IsPlayer behind) refl refl overdue_bails

-- A probe of the proxy by its name.
abbrev target : Bytes
target = codes "mc.example.org:25577"

target_host : probe_host target ≡ host
unfolding probe_host
target_host = refl

target-Targets : Targets (λ s. s) course target
unfolding probe_host new
target-Targets = record {
  host_plain = host_nul;
  host_utf8 = host_utf8;
  host_fits = omega arith;
  expected = same_host;
}

-- A reader of what `print_json` prints: the protocol is the first byte, the rest the name.
abbrev first_byte : Bytes → Option ℕ
first_byte [] = none
first_byte (p ∷ v) = some p

abbrev behind_it : Bytes → Option Bytes
behind_it [] = none
behind_it (p ∷ v) = some v

abbrev demo_reader : JsonReader
demo_reader = record {
  Value = Bytes;
  from_slice = some;
  index = λ v k. v;
  as_i64 = first_byte;
  as_str = behind_it;
}

reads_back :
    ReadsBack demo_reader (shown_text print_json course.shared) (effective_status course.shared)
unfolding build_status_json status_value effective_status new protocol_version version_name
    VersionCache.load
reads_back = record {
  value = 770 ∷ codes "1.21.5";
  parses = refl;
  protocol_is = refl;
  name_is = refl;
}

short_text : length (shown_text print_json course.shared) ≤ max_string_len
unfolding build_status_json status_value effective_status new protocol_version version_name
    VersionCache.load
short_text = omega arith

shown_fits : IsI32 (protocol_version course.shared)
unfolding new protocol_version VersionCache.load
shown_fits = omega arith

abbrev probed : Session
probed = handle_connection print_json demo_format demo_dir (λ s. s) course (probe_request target)

handle_connection-probe_reply_example :
    (probe_reply demo_reader probed.to_client
      ≡ some (protocol_version course.shared, version_name course.shared))
    × (probed.to_server ≡ [])
    × (probed.starts ≡ false)
    × (probed.ended ≡ some (ok tt))
handle_connection-probe_reply_example =
    handle_connection-probe_reply print_json demo_format demo_dir (λ s. s) demo_reader course target
      target-Targets refl short_text shown_fits reads_back
