-- ===== src/Tests/Together.antt =====
-- Examples for the sessions of logins that come together.
use redoxide.Common.{◌≡◌, ◌++◌, ℕ, true, refl, none}
use redoxide.Proxy.Connection.{LoginStart}
use redoxide.Proxy.Login.{Course, Session, join_server, after_wait, handle_login}
use redoxide.Proxy.Login.Complete.{hello_of, start_of, start_read}
use redoxide.Proxy.Wait.{wait_for_server_with}
use redoxide.Protocol.Handshake.{Handshake}
use redoxide.System.{waiting, initial}
use redoxide.System.Sessions.{Seen, seen}
use redoxide.System.Sessions.Once.{with_seen, handle_login-seen, one_session_starts}
use redoxide.System.Starts.{count_downs}
use redoxide.Tests.Fixture.{host, demo_config, demo_format, demo_dir, print_json}
use redoxide.Tests.Idle.{together, few}
use redoxide.Tests.Player.{steve, steve-IsPlayer, course, behind}

abbrev hello : Handshake
hello = record { protocol_version = 770; server_address = host; next_state = 2 }

abbrev start_line : LoginStart
start_line = record { username = steve.name; login_raw = start_of steve; rest = behind }

abbrev saw : Seen
saw = seen 0 together.1

abbrev met : Course
met = with_seen course saw

abbrev met_session : Session
met_session =
    handle_login print_json demo_format demo_dir met hello (hello_of steve)
      (start_of steve ++ behind)

abbrev joined : Session
joined = join_server print_json demo_format demo_dir met (hello_of steve) start_line

handle_login-seen_example :
    (met_session ≡ record joined { starts = saw.starts })
    × (together.0.login 0 ≡ waiting
        → joined
          ≡ after_wait met (hello_of steve) start_line (
              wait_for_server_with print_json demo_format demo_dir course.rounds course.shared
                behind))
unfolding together initial
handle_login-seen_example =
    handle_login-seen print_json demo_format demo_dir demo_config none together.1 0 refl course
      hello (hello_of steve) (start_of steve ++ behind) start_line
      (start_read steve steve-IsPlayer behind)

none_down : count_downs together.1 ≡ 0
unfolding together count_downs
none_down = refl

-- Login 0 has started the container.
saw_start : saw.starts ≡ true
unfolding together seen initial
saw_start = refl

met-starts : met_session.starts ≡ true
met-starts = rw (handle_login-seen_example.0, saw_start) refl

one_session_starts_example : ◌≡◌ {A = ℕ} 0 0
unfolding together initial
one_session_starts_example =
    one_session_starts print_json demo_format demo_dir demo_config none together.1 few none_down 0 0
      refl refl course course hello hello (hello_of steve) (hello_of steve)
      (start_of steve ++ behind) (start_of steve ++ behind) start_line start_line
      (start_read steve steve-IsPlayer behind) (start_read steve steve-IsPlayer behind) met-starts
      met-starts
