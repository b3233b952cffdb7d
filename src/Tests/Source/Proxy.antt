-- ===== src/Tests/Source/Proxy.antt =====
-- The tests of src/proxy.rs. What happens in the time that a test takes is a schedule: the rounds of
-- the wait, and the events of the two copies.
use redoxide.Common.{
  ℕ, Bool, true, false, not, ◌&&◌, ◌≡◌, refl, ◌==◌, Bytes, List, [], ◌∷◌, ◌++◌, none, some, take,
  if◌then◌else◌,
}
use redoxide.Config.{codes, Config}
use redoxide.Config.Text.{same_text}
use redoxide.Outcome.{value_of, Result, ok}
use redoxide.Protocol.Packet.{RawPacket, read_packet, encode_packet, encode_string}
use redoxide.Protocol.Varint.{read_varint, read_varint_sync, encode_varint}
use redoxide.Proxy.Forward.{up, down, fill, flush, close, forward, is_empty, join_loop, copy_step}
use redoxide.Proxy.Forward.Completion.{fine}
use redoxide.Proxy.Wait.{
  Branch, probe, keepalive, changed, Round, Next, again, finished, bail, wait_for_server_with,
  login_plugin_response, begin_wait, wait_loop, wait_round, on_branch, on_change, disconnect,
  and_then, send_keepalive, drain, drain_answers, read_client,
}
use redoxide.State.{
  SharedState, stopped, starting, new, set_state, begin_session, drop_session,
  schedule_idle_shutdown, take_timer, protocol_version, version_name, update_version_info,
}
use redoxide.Status.{encode_login_disconnect, encode_login_plugin_request, reason_value}
use redoxide.Tests.Fixture.{demo_format, demo_dir, print_json}

abbrev test_config : ℕ → Config
test_config startup_timeout_secs = record {
  proxy = record {
    bind = codes "0.0.0.0:0";
    server_address = codes "test";
    handshake_timeout_secs = 10;
  };
  target = record { host = codes "127.0.0.1"; port = 0 };
  docker = record {
    container_name = codes "redoxide-test-nonexistent-container";
    startup_timeout_secs = startup_timeout_secs;
    idle_shutdown_secs = 0;
  };
  status = record {
    protocol_version = 0;
    max_players = 20;
    online_motd = codes "test";
    version_name = codes "test";
    server_properties = none;
  };
  rcon = none;
}

abbrev test_state : ℕ → SharedState
test_state startup_timeout_secs = new demo_format (test_config startup_timeout_secs) none

abbrev waits : List Branch → SharedState → Bytes → Next
waits branches = wait_for_server_with print_json demo_format demo_dir (rounds branches)
  where
    rounds : List Branch → List Round
    rounds [] = []
    rounds (b ∷ bs) = record { late = false; taken = 0; branch = b } ∷ rounds bs

-- An error, with a disconnect packet written to the client.
abbrev is_told_off : Next → Bool
is_told_off (bail e w) = not (is_empty w.written)
is_told_off _ = false

-- A probe gets no answer, then the start fails.
abbrev test_wait_for_server_bails_immediately_when_state_goes_stopped : Bool
test_wait_for_server_bails_immediately_when_state_goes_stopped =
    is_told_off (waits (probe none ∷ changed stopped ∷ []) (set_state starting (test_state 120)) [])

goes_stopped : test_wait_for_server_bails_immediately_when_state_goes_stopped ≡ true
unfolding wait_for_server_with begin_wait wait_loop wait_round on_branch on_change disconnect
    and_then drain new encode_login_disconnect reason_value encode_packet encode_string
    encode_varint
goes_stopped = refl

abbrev test_wait_for_server_bails_immediately_when_already_stopped_before_subscribe : Bool
test_wait_for_server_bails_immediately_when_already_stopped_before_subscribe =
    is_told_off (waits [] (set_state stopped (test_state 120)) [])

already_stopped :
    test_wait_for_server_bails_immediately_when_already_stopped_before_subscribe ≡ true
unfolding wait_for_server_with begin_wait disconnect new encode_login_disconnect reason_value
    encode_packet encode_string encode_varint
already_stopped = refl

abbrev goes_on : Next → Bool
goes_on (again w) = true
goes_on _ = false

abbrev slow_reply : Branch
slow_reply = probe (some (777, codes "26.3"))

abbrev shows : ℕ → Bytes → Next → Bool
shows protocol version (finished w) =
    protocol_version w.shared == protocol && same_text (version_name w.shared) version
shows protocol version _ = false

-- The port is open all the time, and answers the fourth probe.
abbrev test_wait_for_server_needs_a_status_reply_not_just_an_open_port : Bool
test_wait_for_server_needs_a_status_reply_not_just_an_open_port =
    let state = set_state starting (test_state 120) in
    goes_on (waits (probe none ∷ probe none ∷ probe none ∷ []) state [])
    && shows 777 (codes "26.3")
        (waits (probe none ∷ probe none ∷ probe none ∷ slow_reply ∷ []) state [])

needs_reply : test_wait_for_server_needs_a_status_reply_not_just_an_open_port ≡ true
unfolding wait_for_server_with begin_wait wait_loop wait_round on_branch and_then drain
    drain_answers new update_version_info protocol_version version_name same_text
needs_reply = refl

-- The client reads the query and answers its message id; the empty text where it cannot.
abbrev answer_to : Bytes → Bytes
answer_to query = answer (value_of (read_packet query))
  where
    reply : Result ℕ → Bytes
    reply (ok message_id) =
        encode_packet login_plugin_response (encode_varint message_id ++ (0 ∷ []))
    reply _ = []

    answer : Result (RawPacket × Bytes) → Bytes
    answer (ok (q, raw)) = if q.id == 4 then reply (value_of (read_varint_sync q.contents)) else []
    answer _ = []

-- What the wait has left of the client's bytes.
abbrev leaves : Bytes → Next → Bool
leaves rest (finished w) = same_text w.stream rest
leaves rest _ = false

-- The query goes out, then the server is found ready, and the answer comes behind that.
abbrev test_wait_for_server_consumes_keepalive_answers_still_in_flight : Bool
test_wait_for_server_consumes_keepalive_answers_still_in_flight =
    let query = encode_login_plugin_request 0 (codes "redoxide:keepalive") in
    leaves [] (
      waits (keepalive true ∷ slow_reply ∷ []) (set_state starting (test_state 120))
        (answer_to query))

consumes_answer : test_wait_for_server_consumes_keepalive_answers_still_in_flight ≡ true
unfolding wait_for_server_with begin_wait wait_loop wait_round on_branch and_then drain
    drain_answers new send_keepalive read_client read_packet read_varint read_varint_sync
    encode_packet encode_varint encode_string encode_login_plugin_request same_text
consumes_answer = refl

-- The session ends without a player; its task calls `schedule_idle_shutdown`.
abbrev test_abandoned_session_schedules_idle_shutdown : Bool
test_abandoned_session_schedules_idle_shutdown =
    let begun = begin_session (set_state starting (test_state 120)) in
    let (dropped, schedules) = drop_session begun in
    let ended = if schedules then schedule_idle_shutdown dropped else dropped in
    begun.player_count == 1
    && dropped.player_count == 0
    && elim ended.idle_timer [ none ↦ false | some i ↦ true ]

abandoned : test_abandoned_session_schedules_idle_shutdown ≡ true
unfolding new begin_session drop_session schedule_idle_shutdown take_timer
abandoned = refl

-- The server sends back the first five bytes that it gets; the client closes behind them.
abbrev test_real_backend_forward_still_works_end_to_end : Bool
test_real_backend_forward_still_works_end_to_end =
    let relayed = codes "hello" ++ codes "world" in
    let f =
      forward fine (codes "hello") (codes "world") [] (take 5 relayed)
        ((down, fill 5) ∷ (down, flush 5) ∷ (up, close) ∷ (down, close) ∷ []) in
    same_text f.to_client (codes "hello")

end_to_end : test_real_backend_forward_still_works_end_to_end ≡ true
unfolding forward join_loop copy_step same_text
end_to_end = refl
