-- ===== src/Tests/Waiting.antt =====
-- Examples for the wait of src/proxy.rs.
use redoxide.Common.{
  ◌≤◌, ◌<◌, ◌*◌, ◌+◌, ◌≡◌, refl, inl, inr, true, false, List, [], ◌∷◌, none, some, arith,
}
use redoxide.Config.{codes}
use redoxide.Outcome.{no_answer}
use redoxide.Protocol.Varint.{encode_varint}
use redoxide.Protocol.Packet.{encode_packet}
use redoxide.Proxy.Wait.{
  Wait, probe, keepalive, Round, finished, bail, wait_for_server_with, login_plugin_response,
}
use redoxide.Proxy.Wait.Deadline.{ReadyFirst, Fails, wait_deadline}
use redoxide.Proxy.Wait.Keepalive.{queries, wait_answered}
use redoxide.Proxy.Wait.Timing.{Moment, wait_for_server}
use redoxide.Proxy.Wait.Timing.Bounds.{sent_of, wait_for_server-bounded}
use redoxide.Proxy.Wait.Torn.{torn_rounds, torn_answer}
use redoxide.Proxy.Wait.Fair.{sends, asked}
use redoxide.Proxy.Wait.Fair.Ends.{wait_fair}
use redoxide.Tests.Player.{behind, packets, packets-Fit, in_time, rounds, rounds-Fair}
use redoxide.Tests.Fixture.{booting, demo_format, demo_dir, print_json}

abbrev ready : Round
ready = in_time (probe (some (47, codes "1.8")))

-- A wait in which two queries are answered, with another packet in between.
fair_end :
    (w : Wait) × (wait_for_server_with print_json demo_format demo_dir rounds booting
        (sends packets behind)
      ≡ finished w)
    × (w.stream ≡ behind)
    × (w.sent ≡ asked rounds)
    × (w.written ≡ queries (asked rounds))
fair_end =
    wait_fair print_json demo_format demo_dir behind booting rounds packets refl packets-Fit
      rounds-Fair

wait_fair_example :
    (w : Wait) × (wait_for_server_with print_json demo_format demo_dir rounds booting
        (sends packets behind)
      ≡ finished w)
    × (w.stream ≡ behind)
    × (w.sent ≡ asked rounds)
    × (w.written ≡ queries (asked rounds))
wait_fair_example =
    wait_fair print_json demo_format demo_dir behind booting rounds packets refl packets-Fit
      rounds-Fair

wait_answered_example :
    (fair_end.0.sent ≤ fair_end.0.answers) × (fair_end.0.written ≡ queries fair_end.0.sent)
wait_answered_example =
    wait_answered print_json demo_format demo_dir rounds booting (sends packets behind) fair_end.0
      fair_end.1

-- A wait that meets its deadline behind a query.
abbrev overdue : List Round
overdue =
    record { late = false; taken = 0; branch = keepalive true }
    ∷ record { late = true; taken = 0; branch = probe none }
    ∷ []

overdue_unready : ¬ ReadyFirst overdue
overdue_unready (inl h) = cc
overdue_unready (inr (e, inl h)) = cc
overdue_unready (inr (e, inr (f, h))) = h

wait_deadline_example :
    Fails (wait_for_server_with print_json demo_format demo_dir overdue booting [])
wait_deadline_example =
    wait_deadline print_json demo_format demo_dir overdue booting [] (inr (inl refl))
      overdue_unready

-- A read that stops one byte short of the answer.
torn_answer_example :
    (w : Wait) × (wait_for_server_with print_json demo_format demo_dir
        (torn_rounds 3 ready)
        booting
        (encode_packet login_plugin_response (0 ∷ 0 ∷ []))
      ≡ bail no_answer w)
unfolding encode_packet encode_varint
torn_answer_example =
    torn_answer print_json demo_format demo_dir booting (0 ∷ 0 ∷ []) 3 ready refl refl refl refl

-- A query after ten seconds, and a server that is ready a second later.
abbrev moments : List Moment
moments =
    record { starts = 0; ends = 10_000; taken = 0; branch = keepalive true }
    ∷ record { starts = 10_000; ends = 11_000; taken = 0; branch = ready.branch }
    ∷ []

wait_for_server-bounded_example :
    sent_of (wait_for_server print_json demo_format demo_dir moments booting (sends packets []))
      * 10_000
    < booting.config.docker.startup_timeout_secs * 1_000 + 10_000
wait_for_server-bounded_example =
    wait_for_server-bounded print_json demo_format demo_dir moments booting (sends packets [])
      (omega arith, omega arith, omega arith, (omega arith, omega arith, omega arith, tt))
